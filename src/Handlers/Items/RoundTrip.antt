-- ===== src/Handlers/Items/RoundTrip.antt =====
-- Items on the wire (`toClipboardItem` and `fromClipboardItem` of
-- apps/server/src/services/handlers.ts).
use sharepaste.Prelude.{◌≡◌, refl}
use sharepaste.Types.{ClipboardItem, ClipboardKind, text, image, file}
use sharepaste.Handlers.Items.{
  kind_from_proto, kind_to_proto, to_clipboard_item, from_clipboard_item,
}

kind_round_trip : (kind : ClipboardKind) → kind_from_proto (kind_to_proto kind) ≡ kind
unfolding kind_from_proto kind_to_proto
kind_round_trip text = refl
kind_round_trip image = refl
kind_round_trip file = refl

-- An item that is written to a message and read from it is the same item.
pub to_clipboard_item-from_clipboard_item :
    (item : ClipboardItem) → to_clipboard_item (from_clipboard_item item) ≡ item
unfolding to_clipboard_item from_clipboard_item
to_clipboard_item-from_clipboard_item item = λ i. record item { kind = kind_round_trip item.kind i }
