-- ===== src/Client/SharePaste/Requests.antt =====
-- The calls that the client passes on for its device (apps/client-cli/src/core/
-- sharepaste-client.ts).
use sharepaste.Prelude.{String, Bool, List, if◌then◌else◌}
use sharepaste.Types.{PolicyPatch}
use sharepaste.Client.Types.{SharePolicy}
use sharepaste.Client.Task.{Task, done, asks, ◌>>=◌, ◌>>◌, Client}
use sharepaste.Client.Ports.{
  Ports, BindCodeResult, BindRequestResult, ConfirmBindResult, DeviceRecord,
}
use sharepaste.Client.SharePaste.Keys.{current_state, apply_group_key_update}

module _ {X : Type 0} (ports : Ports X) where
  unfoldable pub client_create_bind_code : Task (Client X) BindCodeResult
  client_create_bind_code = do
    state ← current_state
    asks (ports.transport.create_bind_code state.device_id)

  unfoldable pub client_request_bind : String → Task (Client X) BindRequestResult
  client_request_bind code = do
    state ← current_state
    asks (ports.transport.request_bind code state.device_id)

  abbrev if_approved : ConfirmBindResult → Task (Client X) (Unit {0})
  if_approved result =
      if result.approved
      then (do
        apply_group_key_update ports (record {
          group_id = result.group_id;
          sealed_group_key = result.sealed_group_key;
          group_key_version = result.group_key_version;
        })
        done tt)
      else done tt

  unfoldable pub client_confirm_bind : String → Bool → Task (Client X) (Bool × String)
  client_confirm_bind request approve = do
    state ← current_state
    result ← asks (ports.transport.confirm_bind request state.device_id approve)
    if_approved result
    done (result.approved, result.group_id)

  unfoldable pub client_list_devices : Task (Client X) (List DeviceRecord)
  client_list_devices = do
    state ← current_state
    asks (ports.transport.list_devices state.device_id)

  unfoldable pub client_remove_device : String → Task (Client X) Bool
  client_remove_device target = do
    state ← current_state
    asks (ports.transport.remove_device state.device_id target)

  unfoldable pub client_get_policy : Task (Client X) SharePolicy
  client_get_policy = do state ← current_state; asks (ports.transport.get_policy state.device_id)

  unfoldable pub client_update_policy : PolicyPatch → Task (Client X) (Unit {0})
  client_update_policy patch = do
    state ← current_state
    current ← asks (ports.transport.get_policy state.device_id)
    asks (
        ports.transport.update_policy state.device_id (record {
          allow_text = patch.allow_text;
          allow_image = patch.allow_image;
          allow_file = patch.allow_file;
          max_file_size_bytes = patch.max_file_size_bytes;
          version = current.version;
        }))
    done tt
