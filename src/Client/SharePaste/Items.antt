-- ===== src/Client/SharePaste/Items.antt =====
-- Sending items and applying those that come in (apps/client-cli/src/core/sharepaste-client.ts).
use sharepaste.Prelude.{
  ℕ, ◌/◌, String, Bool, true, false, Option, none, some, List, [], ◌∷◌, pos, length, if◌then◌else◌,
}
use Prim.Native.String.{◌++◌}
use sharepaste.Types.{ClipboardKind, text, image, file}
use sharepaste.Client.Types.{ClipboardPayload, SharePolicy}
use sharepaste.Client.SyncEngine.{should_send, should_apply_incoming}
use sharepaste.Client.History.{push}
use sharepaste.Client.Task.{Task, Outside, done, asks, changes, ◌>>=◌, ◌>>◌, Client}
use sharepaste.Client.Ports.{Ports, Bytes, IncomingClipboardEvent}
use sharepaste.Client.SharePaste.Keys.{current_state, current_engine, write_engine, get_group_key}

abbrev pub kind_name : ClipboardKind → String
kind_name text = "text"
kind_name image = "image"
kind_name file = "file"

module _ {X : Type 0} where
  unfoldable pub remember_item : ClipboardPayload → Task (Client X) (Unit {0})
  remember_item item = changes λ c. record c { history = push item c.history }

  -- An optional handler of `ClientEventHandlers`: handler?.(event)
  unfoldable pub tell :
      {E : Type 0} → Option (E → Outside X (Unit {0})) → E → Task (Client X) (Unit {0})
  tell none event = done tt
  tell (some handler) event = asks (handler event)

module _ {X : Type 0} (ports : Ports X) where
  abbrev pub event_of : ClipboardPayload → Option String → Option String → IncomingClipboardEvent
  event_of item shown saved = record {
    item_id = item.item_id;
    kind = item.kind;
    mime = item.mime;
    source_device_id = item.source_device_id;
    text = shown;
    saved_path = saved;
  }

  -- What is done with the plaintext: text is written to the clipboard, all else to a file.
  unfoldable pub show_item : ClipboardPayload → Bytes → ClipboardKind → Task (Client X) (Unit {0})
  show_item item plaintext text = do
    let shown = ports.node.utf8_text plaintext
    asks (ports.around.write_text shown)
    tell ports.around.on_incoming_clipboard (event_of item (some shown) none)
  show_item item plaintext kind = do
    saved ← asks (ports.around.materialize item plaintext)
    changes λ c. record c {
      outside = ports.around.info ("saved " ++ kind_name kind ++ " payload to " ++ saved) c.outside;
    }
    tell ports.around.on_incoming_clipboard (event_of item none (some saved))

  -- An item that the engine accepted.
  unfoldable pub take_item : ClipboardPayload → Bytes → Task (Client X) (Unit {0})
  unfolding show_item remember_item
  take_item item key = do
    remember_item item
    plaintext ← asks (
        ports.crypto.decrypt_clipboard key
          (record { nonce = item.nonce; ciphertext = item.ciphertext }))
    show_item item plaintext item.kind

  unfoldable pub apply_incoming : ClipboardPayload → Bytes → Task (Client X) (Unit {0})
  apply_incoming item key = do
    engine ← current_engine
    let verdict = should_apply_incoming item engine
    write_engine verdict.1
    if verdict.0.accepted then take_item item key else done tt

  -- syncOffline's loop
  unfoldable pub apply_all : String → Bytes → List ClipboardPayload → Task (Client X) (Unit {0})
  apply_all device_id key [] = done tt
  apply_all device_id key (item ∷ items) = do
    apply_incoming item key
    asks (ports.transport.ack_item device_id item.item_id)
    apply_all device_id key items

  unfoldable pub sync_offline : Task (Client X) (Unit {0})
  unfolding apply_all
  sync_offline = do
    state ← current_state
    key ← get_group_key ports
    items ← asks (ports.transport.fetch_offline state.device_id (pos 100))
    apply_all state.device_id key items

  -- `makeItemId` of the sync engine
  unfoldable pub make_item_id : Bytes → ℕ → Task (Client X) String
  make_item_id content created_at = do
    suffix ← asks (ports.node.nanoid 6)
    done ("item_" ++ ports.node.digest_16 content created_at ++ "_" ++ suffix)

  -- A payload that the engine lets through.
  unfoldable pub push_payload : String → ClipboardPayload → Task (Client X) Bool
  unfolding remember_item
  push_payload device_id payload = do
    accepted ← asks (ports.transport.push_clipboard_item device_id payload)
    if accepted then (do remember_item payload; done true) else done false

  unfoldable pub send_payload :
      ClipboardKind → String → Bytes → String → SharePolicy → Task (Client X) Bool
  unfolding push_payload make_item_id
  send_payload kind mime plaintext device_id policy = do
    key ← get_group_key ports
    now ← asks ports.node.date_now
    let created_at = now / 1000
    engine ← current_engine
    item_id ← make_item_id plaintext created_at
    encrypted ← asks (ports.crypto.encrypt_clipboard key plaintext)
    let payload : ClipboardPayload = record {
      item_id = item_id;
      kind = kind;
      mime = mime;
      size_bytes = pos (length plaintext);
      created_at_unix = pos created_at;
      source_device_id = device_id;
      cipher_ref = "inline://" ++ item_id;
      ciphertext = encrypted.ciphertext;
      nonce = encrypted.nonce;
    }
    let verdict = should_send payload policy engine
    write_engine verdict.1
    if verdict.0.accepted then push_payload device_id payload else done false

  abbrev policy_for : Option SharePolicy → String → Task (Client X) SharePolicy
  policy_for none id = asks (ports.transport.get_policy id)
  policy_for (some policy) id = done policy

  unfoldable pub send_text : String → Option SharePolicy → Task (Client X) Bool
  unfolding send_payload
  send_text value cached = do
    state ← current_state
    policy ← policy_for cached state.device_id
    send_payload text "text/plain" (ports.node.utf8_bytes value) state.device_id policy

  unfoldable pub send_file : String → String → Bool → Task (Client X) Bool
  unfolding send_payload
  send_file path mime as_image = do
    state ← current_state
    policy ← asks (ports.transport.get_policy state.device_id)
    bytes ← asks (ports.node.read_file path)
    send_payload (if as_image then image else file) mime bytes state.device_id policy
