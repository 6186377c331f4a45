-- ===== src/Client/Incoming.antt =====
-- `extensionForMime` of apps/client-cli/src/core/incoming-item-store.ts. `lower` is
-- String.prototype.toLowerCase.
use sharepaste.Prelude.{String, ◌==◌, if◌then◌else◌}
use sharepaste.Types.{ClipboardKind, image}
use sharepaste.Client.Types.{ClipboardPayload}

unknown_extension : ClipboardKind → String
unknown_extension image = ".img"
unknown_extension _ = ".bin"

unfoldable pub extension_for_mime : (String → String) → ClipboardPayload → String
unfolding unknown_extension
extension_for_mime lower payload =
    let mime = lower payload.mime in
    if mime == "image/png"
    then ".png"
    else if mime == "image/jpeg"
    then ".jpg"
    else if mime == "image/gif"
    then ".gif"
    else if mime == "image/webp"
    then ".webp"
    else if mime == "application/pdf"
    then ".pdf"
    else if mime == "text/plain"
    then ".txt"
    else unknown_extension payload.kind
