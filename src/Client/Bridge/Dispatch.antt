-- ===== src/Client/Bridge/Dispatch.antt =====
-- The requests of the host, line by line (apps/client-cli/src/runtime/runtime-bridge.ts). A method
-- that every JavaScript object has, such as "constructor", is left aside: the source finds one.
use sharepaste.Client.SharePaste.Keys.{new_client}
use sharepaste.Client.SharePaste.Realtime.{on_message}
use Prim.Native.String.{◌++◌}
use sharepaste.Prelude.{String, Option, none, some, List, [], ◌∷◌, ◌==◌, if◌then◌else◌, false}
use sharepaste.Client.StateFile.{Fields}
use sharepaste.Client.Task.{Task, Outcome, returned, thrown}
use sharepaste.Client.Ports.{Ports, RealtimeMessage}
use sharepaste.Client.Bridge.Handlers.{
  Bridge, BridgeRequest, Answer, Conversions, on_inspect_state, on_bootstrap, on_recover,
  on_get_state, on_list_devices, on_remove_device, on_get_policy, on_update_policy,
  on_create_bind_code, on_request_bind, on_confirm_bind, on_start_realtime, on_stop_realtime,
  on_send_text, on_send_file, on_send_image, on_clipboard_change, on_shutdown, on_client,
}

pub data Method : Type 0 where
  inspect_state bootstraps recovers gets_state lists_devices removes_device : Method
  gets_policy updates_policy creates_code requests_bind confirms_bind : Method
  starts_realtime stops_realtime sends_text sends_file sends_image : Method
  notifies_change shuts_down : Method

-- handlers[request.method]
unfoldable pub method_of : String → Option Method
method_of name =
    if name == "inspectState"
    then some inspect_state
    else if name == "bootstrap"
    then some bootstraps
    else if name == "recover"
    then some recovers
    else if name == "getState"
    then some gets_state
    else if name == "listDevices"
    then some lists_devices
    else if name == "removeDevice"
    then some removes_device
    else if name == "getPolicy"
    then some gets_policy
    else if name == "updatePolicy"
    then some updates_policy
    else if name == "createBindCode"
    then some creates_code
    else if name == "requestBind"
    then some requests_bind
    else if name == "confirmBind"
    then some confirms_bind
    else if name == "startRealtime"
    then some starts_realtime
    else if name == "stopRealtime"
    then some stops_realtime
    else if name == "sendText"
    then some sends_text
    else if name == "sendFile"
    then some sends_file
    else if name == "sendImage"
    then some sends_image
    else if name == "notifyClipboardChange"
    then some notifies_change
    else if name == "shutdown"
    then some shuts_down
    else none

-- `BridgeSuccess` and `BridgeFailure`
pub data Response : Type 0 where
  success : String → Answer → Response
  failure : String → String → Response

pub data Arrival : Type 0 where
  requested : BridgeRequest → Arrival
  received : String → RealtimeMessage → Arrival

unfoldable pub new_bridge : {X : Type 0} → X → Bridge X
unfolding new_client
new_bridge x = record { ready = false; realtime_running = false; client = new_client x }

module _ {X : Type 0} (ports : Ports X) (js : Conversions) (default_name : String) where
  unfoldable pub run_method : Method → Fields → Task (Bridge X) Answer
  run_method inspect_state params = on_inspect_state ports js default_name
  run_method bootstraps params = on_bootstrap ports js default_name params
  run_method recovers params = on_recover ports js default_name params
  run_method gets_state params = on_get_state ports js default_name
  run_method lists_devices params = on_list_devices ports js default_name
  run_method removes_device params = on_remove_device ports js default_name params
  run_method gets_policy params = on_get_policy ports js default_name
  run_method updates_policy params = on_update_policy ports js default_name params
  run_method creates_code params = on_create_bind_code ports js default_name
  run_method requests_bind params = on_request_bind ports js default_name params
  run_method confirms_bind params = on_confirm_bind ports js default_name params
  run_method starts_realtime params = on_start_realtime ports js default_name
  run_method stops_realtime params = on_stop_realtime ports js default_name
  run_method sends_text params = on_send_text ports js default_name params
  run_method sends_file params = on_send_file ports js default_name params
  run_method sends_image params = on_send_image ports js default_name params
  run_method notifies_change params = on_clipboard_change ports js default_name params
  run_method shuts_down params = on_shutdown ports js default_name

  abbrev respond : String → Outcome Answer → Response
  respond id (returned answer) = success id answer
  respond id (thrown message) = failure id message

  -- With the handler that was found, if any.
  unfoldable pub answer_with : Option Method → BridgeRequest → Bridge X → Response × Bridge X
  unfolding run_method
  answer_with none request b = (failure request.id ("unknown method: " ++ request.method), b)
  answer_with (some method) request b =
      let r = run_method method request.params b in (respond request.id r.0, r.1)

  -- The response that is written, and the bridge.
  unfoldable pub handle_request : BridgeRequest → Bridge X → Response × Bridge X
  unfolding answer_with method_of
  handle_request request b = answer_with (method_of request.method) request b

  -- The responses to requests that come in one after the other.
  unfoldable pub serve_requests : List BridgeRequest → Bridge X → List Response × Bridge X
  unfolding handle_request
  serve_requests [] b = ([], b)
  serve_requests (request ∷ rest) b =
      let first = handle_request request b in
      let others = serve_requests rest first.1 in (first.0 ∷ others.0, others.1)

  -- What comes to the bridge: a request, or a message of the stream that was opened for a device.
  -- Each is handled to its end before the next.
  unfoldable pub arrive : Arrival → Bridge X → Bridge X
  unfolding handle_request
  arrive (requested request) b = (handle_request request b).1
  arrive (received device_id message) b = (on_client (on_message ports device_id message) b).1

  unfoldable pub after_arrivals : List Arrival → Bridge X → Bridge X
  unfolding arrive
  after_arrivals [] b = b
  after_arrivals (a ∷ rest) b = after_arrivals rest (arrive a b)
