-- ===== src/Client/Grpc/Messages.antt =====
-- The messages that the gRPC client writes and reads (apps/client-cli/src/core/grpc-client.ts).
use sharepaste.Prelude.{String, Option, none, some, ◌==◌, if◌then◌else◌}
use sharepaste.Types.{ClipboardKind, text, image, file}
use sharepaste.Handlers.Items.{ItemMessage, bytes_or_none}
use sharepaste.Client.Types.{ClipboardPayload}
use sharepaste.Client.Ports.{RealtimeMessage, KeyUpdate, PairingNotice}

unfoldable pub client_kind_to_proto : ClipboardKind → String
client_kind_to_proto text = "CLIPBOARD_ITEM_TYPE_TEXT"
client_kind_to_proto image = "CLIPBOARD_ITEM_TYPE_IMAGE"
client_kind_to_proto file = "CLIPBOARD_ITEM_TYPE_FILE"

unfoldable pub client_kind_from_proto : String → ClipboardKind
client_kind_from_proto kind =
    if kind == "CLIPBOARD_ITEM_TYPE_IMAGE"
    then image
    else if kind == "CLIPBOARD_ITEM_TYPE_FILE"
    then file
    else text

-- The item of a request.
unfoldable pub item_message : ClipboardPayload → ItemMessage
unfolding client_kind_to_proto
item_message item = record {
  item_id = item.item_id;
  kind = client_kind_to_proto item.kind;
  size_bytes = item.size_bytes;
  mime = item.mime;
  cipher_ref = item.cipher_ref;
  ciphertext = some item.ciphertext;
  nonce = some item.nonce;
  created_at_unix = item.created_at_unix;
  source_device_id = item.source_device_id;
}

-- The item of a reply; bytes that are left out are empty (`defaults: true`).
unfoldable pub payload_of : ItemMessage → ClipboardPayload
unfolding client_kind_from_proto
payload_of item = record {
  item_id = item.item_id;
  kind = client_kind_from_proto item.kind;
  mime = item.mime;
  size_bytes = item.size_bytes;
  created_at_unix = item.created_at_unix;
  source_device_id = item.source_device_id;
  cipher_ref = item.cipher_ref;
  ciphertext = bytes_or_none item.ciphertext;
  nonce = bytes_or_none item.nonce;
}

-- A message of the event stream.
pub record StreamMessage : Type 0 where
  pub clipboard : Option ItemMessage
  pub group_key_update : Option KeyUpdate
  pub pairing_request : Option PairingNotice

abbrev nothing : RealtimeMessage
nothing = record { group_key_update = none; pairing_request = none; clipboard = none }

abbrev of_pairing : Option PairingNotice → RealtimeMessage
of_pairing notice = record nothing { pairing_request = notice }

abbrev of_key_update : Option KeyUpdate → Option PairingNotice → RealtimeMessage
of_key_update none notice = of_pairing notice
of_key_update (some update) notice = record nothing { group_key_update = some update }

abbrev of_clipboard : Option ItemMessage → Option KeyUpdate → Option PairingNotice → RealtimeMessage
of_clipboard none update notice = of_key_update update notice
of_clipboard (some item) update notice = record nothing { clipboard = some (payload_of item) }

-- Only the first part that is there is read.
unfoldable pub to_realtime_message : StreamMessage → RealtimeMessage
unfolding payload_of
to_realtime_message m = of_clipboard m.clipboard m.group_key_update m.pairing_request
