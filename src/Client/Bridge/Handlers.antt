-- ===== src/Client/Bridge/Handlers.antt =====
-- The handlers of the runtime bridge (apps/client-cli/src/runtime/runtime-bridge.ts). The clipboard
-- port of the bridge has a listener exactly while the client has a realtime loop.
use sharepaste.Prelude.{String, Bool, true, false, Option, none, some, List, ℤ, ◌==◌, if◌then◌else◌}
use sharepaste.Client.Types.{PersistedState, SharePolicy}
use sharepaste.Client.StateFile.{Json, Fields, field_of}
use sharepaste.Client.Task.{
  Client, Task, done, throw, settle, or_throw, reads, asks, changes, ◌>>=◌, ◌>>◌,
}
use sharepaste.Client.Ports.{Ports, DeviceRecord, BindCodeResult, BindRequestResult}
use sharepaste.Client.SharePaste.Keys.{current_state}
use sharepaste.Client.SharePaste.Items.{send_text, send_file}
use sharepaste.Client.SharePaste.Bootstrap.{bootstrap, recover_group_client}
use sharepaste.Client.SharePaste.Requests.{
  client_create_bind_code, client_request_bind, client_confirm_bind, client_list_devices,
  client_remove_device, client_get_policy, client_update_policy,
}
use sharepaste.Client.SharePaste.Realtime.{start_realtime, stop_realtime}
use sharepaste.Client.Bridge.Params.{
  StateSnapshot, snapshot_state, text_param, text_param_or, trimmed_param_or, boolean_param,
}

-- `ready`, `realtimeRunning` and the client
pub record Bridge (X : Type 0) : Type 0 where
  pub ready : Bool
  pub realtime_running : Bool
  pub client : Client X

-- `BridgeRequest`; parameters that are left out are `{}`.
pub record BridgeRequest : Type 0 where
  pub id : String
  pub method : String
  pub params : Fields

-- The objects that the handlers return.
pub data Answer : Type 0 where
  no_state : Answer
  state : StateSnapshot → Answer
  devices : List DeviceRecord → Answer
  removed : Bool → Answer
  policy : SharePolicy → Answer
  bind_code : BindCodeResult → Answer
  bind_request : BindRequestResult → Answer
  confirmed : Bool → String → Answer
  running : Bool → Option StateSnapshot → Answer
  accepted : Bool → Answer
  stopped : Answer

-- What the handlers use of JavaScript: trim, Number of a value, and whether a number is zero.
pub record Conversions : Type 0 where
  pub trim : String → String
  pub number_of : Option Json → ℤ
  pub is_zero : String → Bool

module _ {X : Type 0} where
  -- A method of the client.
  unfoldable pub on_client : {A : Type 0} → Task (Client X) A → Task (Bridge X) A
  on_client m b = let (o, c) = m b.client in (o, record b { client = c })

  unfoldable pub becomes_ready : Task (Bridge X) (Unit {0})
  becomes_ready = changes λ b. record b { ready = true }

  unfoldable pub set_running : Bool → Task (Bridge X) (Unit {0})
  set_running value = changes λ b. record b { realtime_running = value }

  -- if (!value) throw new Error(message)
  unfoldable pub required : String → String → Task (Bridge X) String
  required value message = if value == "" then throw message else done value

  unfoldable pub with_snapshot : Task (Bridge X) StateSnapshot
  with_snapshot = do s ← on_client current_state; done (snapshot_state s)

abbrev snapshot_or_null : Option PersistedState → Answer
snapshot_or_null none = no_state
snapshot_or_null (some s) = state (snapshot_state s)

abbrev name_or : String → String → String
name_or name fallback = if name == "" then fallback else name

module _ {X : Type 0} (ports : Ports X) (js : Conversions) (default_name : String) where
  unfoldable pub ensure_ready : Task (Bridge X) (Unit {0})
  ensure_ready = do
    already ← reads λ b. b.ready
    if already then done tt else (do
      loaded ← on_client (asks ports.state_store.load)
      existing ← settle (or_throw loaded "CLIENT_NOT_INITIALIZED")
      on_client (bootstrap ports (name_or existing.device_name default_name))
      becomes_ready)

  unfoldable pub on_inspect_state : Task (Bridge X) Answer
  on_inspect_state = do
    loaded ← on_client (asks ports.state_store.load)
    done (snapshot_or_null loaded)

  unfoldable pub on_bootstrap : Fields → Task (Bridge X) Answer
  on_bootstrap params = do
    s ← on_client (bootstrap ports (trimmed_param_or js.trim "deviceName" default_name params))
    becomes_ready
    done (state (snapshot_state s))

  unfoldable pub on_recover : Fields → Task (Bridge X) Answer
  on_recover params = do
    phrase ← required (js.trim (text_param "phrase" params)) "recovery phrase is required"
    s ← on_client (
        recover_group_client ports phrase
          (trimmed_param_or js.trim "deviceName" default_name params))
    becomes_ready
    done (state (snapshot_state s))

  unfoldable pub on_get_state : Task (Bridge X) Answer
  on_get_state = do ensure_ready; s ← with_snapshot; done (state s)

  unfoldable pub on_list_devices : Task (Bridge X) Answer
  on_list_devices = do
    ensure_ready
    found ← on_client (client_list_devices ports)
    done (devices found)

  unfoldable pub on_remove_device : Fields → Task (Bridge X) Answer
  on_remove_device params = do
    ensure_ready
    target ← required (js.trim (text_param "targetDeviceId" params)) "targetDeviceId is required"
    gone ← on_client (client_remove_device ports target)
    done (removed gone)

  unfoldable pub on_get_policy : Task (Bridge X) Answer
  on_get_policy = do ensure_ready; p ← on_client (client_get_policy ports); done (policy p)

  unfoldable pub on_update_policy : Fields → Task (Bridge X) Answer
  on_update_policy params = do
    ensure_ready
    on_client (
        client_update_policy ports (record {
          allow_text = boolean_param js.is_zero "allowText" params;
          allow_image = boolean_param js.is_zero "allowImage" params;
          allow_file = boolean_param js.is_zero "allowFile" params;
          max_file_size_bytes = js.number_of (field_of "maxFileSizeBytes" params);
        }))
    p ← on_client (client_get_policy ports)
    done (policy p)

  unfoldable pub on_create_bind_code : Task (Bridge X) Answer
  on_create_bind_code = do
    ensure_ready
    c ← on_client (client_create_bind_code ports)
    done (bind_code c)

  unfoldable pub on_request_bind : Fields → Task (Bridge X) Answer
  on_request_bind params = do
    ensure_ready
    code ← required (js.trim (text_param "code" params)) "code is required"
    r ← on_client (client_request_bind ports code)
    done (bind_request r)

  unfoldable pub on_confirm_bind : Fields → Task (Bridge X) Answer
  on_confirm_bind params = do
    ensure_ready
    request ← required (js.trim (text_param "requestId" params)) "requestId is required"
    r ← on_client (client_confirm_bind ports request (boolean_param js.is_zero "approve" params))
    done (confirmed r.0 r.1)

  unfoldable pub on_start_realtime : Task (Bridge X) Answer
  on_start_realtime = do
    ensure_ready
    already ← reads λ b. b.realtime_running
    if already then done tt else (do on_client (start_realtime ports); set_running true)
    s ← with_snapshot
    now ← reads λ b. b.realtime_running
    done (running now (some s))

  -- The start of `stopRealtime` and `shutdown`.
  unfoldable pub halt : Task (Bridge X) (Unit {0})
  halt = do
    already ← reads λ b. b.realtime_running
    if already then (do on_client (stop_realtime ports); set_running false) else done tt

  unfoldable pub on_stop_realtime : Task (Bridge X) Answer
  unfolding halt
  on_stop_realtime = do halt; now ← reads λ b. b.realtime_running; done (running now none)

  unfoldable pub on_send_text : Fields → Task (Bridge X) Answer
  on_send_text params = do
    ensure_ready
    sent ← on_client (send_text ports (text_param "value" params) none)
    done (accepted sent)

  unfoldable pub on_send_file : Fields → Task (Bridge X) Answer
  on_send_file params = do
    ensure_ready
    path ← required (text_param "path" params) "path is required"
    let mime = text_param_or "mime" "application/octet-stream" params
    sent ← on_client (send_file ports path mime false)
    done (accepted sent)

  unfoldable pub on_send_image : Fields → Task (Bridge X) Answer
  on_send_image params = do
    ensure_ready
    path ← required (text_param "path" params) "path is required"
    let mime = text_param_or "mime" "image/png" params
    sent ← on_client (send_file ports path mime true)
    done (accepted sent)

  -- What the listener of the clipboard does, if there is one; its result is dropped.
  unfoldable pub emit_change : Task (Client X) Bool → Task (Bridge X) (Unit {0})
  emit_change send = do
    listening ← reads λ b. b.client.realtime_loop
    if listening then (do on_client send; done tt) else done tt

  unfoldable pub on_clipboard_change : Fields → Task (Bridge X) Answer
  on_clipboard_change params = do
    ensure_ready
    if text_param "kind" params == "text"
        then (do
          emit_change (send_text ports (text_param "value" params) none)
          done (accepted true))
        else if text_param "kind" params == "image"
        then (do
          path ←
              required (text_param "filePath" params)
                "filePath is required for image clipboard changes"
          emit_change (send_file ports path (text_param_or "mime" "image/png" params) true)
          done (accepted true))
        else throw "unsupported clipboard change"

  unfoldable pub on_shutdown : Task (Bridge X) Answer
  unfolding halt
  on_shutdown = do halt; done stopped
