-- ===== src/Handlers/Items.antt =====
-- The items of the wire: `kindFromProto`, `kindToProto`, `toClipboardItem` and `fromClipboardItem`
-- of apps/server/src/services/handlers.ts. `proto-loader` gives a 64-bit number as decimal text,
-- which `Number` reads; here it is the integer.
pub mod RoundTrip
use sharepaste.Prelude.{ℕ, String, Option, none, some, List, [], ℤ, ◌==◌, if◌then◌else◌}
use sharepaste.Types.{ClipboardKind, text, image, file, ClipboardItem}

unfoldable pub kind_from_proto : String → ClipboardKind
kind_from_proto kind =
    if kind == "CLIPBOARD_ITEM_TYPE_TEXT"
    then text
    else if kind == "CLIPBOARD_ITEM_TYPE_IMAGE"
    then image
    else if kind == "CLIPBOARD_ITEM_TYPE_FILE"
    then file
    else text

unfoldable pub kind_to_proto : ClipboardKind → String
kind_to_proto text = "CLIPBOARD_ITEM_TYPE_TEXT"
kind_to_proto image = "CLIPBOARD_ITEM_TYPE_IMAGE"
kind_to_proto file = "CLIPBOARD_ITEM_TYPE_FILE"

-- The message `ClipboardItem` of the protocol.
pub record ItemMessage : Type 0 where
  pub item_id : String
  pub kind : String
  pub size_bytes : ℤ
  pub mime : String
  pub cipher_ref : String
  pub ciphertext : Option (List ℕ)
  pub nonce : Option (List ℕ)
  pub created_at_unix : ℤ
  pub source_device_id : String

abbrev pub bytes_or_none : Option (List ℕ) → List ℕ
bytes_or_none none = []
bytes_or_none (some bytes) = bytes

unfoldable pub to_clipboard_item : ItemMessage → ClipboardItem
unfolding kind_from_proto
to_clipboard_item m = record {
  item_id = m.item_id;
  kind = kind_from_proto m.kind;
  size_bytes = m.size_bytes;
  mime = m.mime;
  cipher_ref = m.cipher_ref;
  ciphertext = bytes_or_none m.ciphertext;
  nonce = bytes_or_none m.nonce;
  created_at_unix = m.created_at_unix;
  source_device_id = m.source_device_id;
}

unfoldable pub from_clipboard_item : ClipboardItem → ItemMessage
unfolding kind_to_proto
from_clipboard_item item = record {
  item_id = item.item_id;
  kind = kind_to_proto item.kind;
  size_bytes = item.size_bytes;
  mime = item.mime;
  cipher_ref = item.cipher_ref;
  ciphertext = some item.ciphertext;
  nonce = some item.nonce;
  created_at_unix = item.created_at_unix;
  source_device_id = item.source_device_id;
}
