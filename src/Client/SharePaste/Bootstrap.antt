-- ===== src/Client/SharePaste/Bootstrap.antt =====
-- Registering a device, recovering a group and refreshing the state (apps/client-cli/src/core/
-- sharepaste-client.ts).
use sharepaste.Prelude.{String, Bool, Option, none, some, ◌&&◌, ◌==◌, is_some, if◌then◌else◌}
use text.Mathlib.Text.{find?}
use sharepaste.Client.Types.{PersistedState, DeviceIdentity}
use sharepaste.Client.Task.{Task, done, throw, asks, catches, ◌>>=◌, ◌>>◌, Client}
use sharepaste.Client.Ports.{Ports, Registration}
use sharepaste.Client.SharePaste.Keys.{
  attach_state, clear_session, current_state, extract_group_key, update_group_key,
}

-- The state that stands in the session while the server is asked.
abbrev pub placeholder : String → String → String → DeviceIdentity → PersistedState
placeholder name platform phrase identity = record {
  device_id = "";
  group_id = "";
  device_name = name;
  platform = platform;
  recovery_phrase = phrase;
  sealed_group_key = "";
  identity = identity;
  group_key_base64 = none;
  group_key_version = none;
}

abbrev pub stale_device_state : String
stale_device_state = "STALE_DEVICE_STATE"

module _ {X : Type 0} (ports : Ports X) where
  unfoldable pub build_registered_state :
      String → String → DeviceIdentity → Registration → Task (Client X) PersistedState
  build_registered_state name phrase identity registration = do
    key ← extract_group_key ports registration.sealed_group_key
    done (record {
      device_id = registration.device.device_id;
      group_id = registration.group_id;
      device_name = name;
      platform = ports.node.name;
      recovery_phrase = phrase;
      sealed_group_key = registration.sealed_group_key;
      identity = identity;
      group_key_base64 = some (ports.node.base64url_text key);
      group_key_version = some 1;
    })

  -- The end of a registration and of a recovery.
  unfoldable pub keep_state : PersistedState → Task (Client X) PersistedState
  keep_state state = do asks (ports.state_store.save state); attach_state state

  unfoldable pub register_fresh_device : String → Task (Client X) PersistedState
  unfolding build_registered_state keep_state
  register_fresh_device name = do
    identity ← asks ports.crypto.create_identity
    attach_state (placeholder name ports.node.name "" identity)
    registration ←
        asks (ports.transport.register_device name ports.node.name identity.wrap_public_key)
    state ← build_registered_state name registration.recovery_phrase identity registration
    keep_state state

  unfoldable pub recover_group_client : String → String → Task (Client X) PersistedState
  unfolding build_registered_state keep_state
  recover_group_client phrase name = do
    identity ← asks ports.crypto.create_identity
    attach_state (placeholder name ports.node.name phrase identity)
    registration ←
        asks (ports.transport.recover_group phrase name ports.node.name identity.wrap_public_key)
    state ← build_registered_state name phrase identity registration
    keep_state state

  -- message.toLowerCase().includes("device not found")
  abbrev pub says_not_found : String → Bool
  says_not_found message = is_some (find? (ports.node.lower message) "device not found")

  -- The call of `applyGroupKeyUpdate` is not awaited inside the `try`, so only what comes before
  -- it is caught.
  unfoldable pub refresh_persisted_state : PersistedState → Task (Client X) PersistedState
  refresh_persisted_state existing = do
    context ←
        catches
          (do attach_state existing; asks (ports.transport.get_device_context existing.device_id))
          λ message. throw (if says_not_found message then stale_device_state else message)
    update_group_key ports
        (record {
          group_id = context.group_id;
          sealed_group_key = context.sealed_group_key;
          group_key_version = context.group_key_version;
        })
        (record existing {
          device_name = context.device.name;
          platform = context.device.platform;
          group_id = context.group_id;
        })

  abbrev pub should_reset_stale_state : String → Bool
  should_reset_stale_state message = ports.reset_stale_state && message == stale_device_state

  -- What follows an error of the refresh.
  unfoldable pub reset_or_throw : String → String → Task (Client X) PersistedState
  unfolding register_fresh_device
  reset_or_throw name message =
      if should_reset_stale_state message
      then (do asks ports.state_store.clear; clear_session; register_fresh_device name)
      else throw message

  unfoldable pub bootstrap_from : String → Option PersistedState → Task (Client X) PersistedState
  unfolding register_fresh_device refresh_persisted_state reset_or_throw
  bootstrap_from name none = register_fresh_device name
  bootstrap_from name (some existing) =
      catches (do refreshed ← refresh_persisted_state existing; attach_state refreshed)
        (reset_or_throw name)

  unfoldable pub bootstrap : String → Task (Client X) PersistedState
  unfolding bootstrap_from
  bootstrap name = do existing ← asks ports.state_store.load; bootstrap_from name existing

  unfoldable pub refresh_current_state : Task (Client X) PersistedState
  unfolding refresh_persisted_state
  refresh_current_state = do
    current ← current_state
    refreshed ← refresh_persisted_state current
    attach_state refreshed
