-- ===== src/Client/Bridge/Coherence/Requests.antt =====
-- The flags of the bridge and its client through whole requests and the messages of the stream
-- (apps/client-cli/src/runtime/runtime-bridge.ts).
use sharepaste.Prelude.{String, Bool, true, false, none}
use sharepaste.Client.StateFile.{Fields}
use sharepaste.Client.Task.{Client, Task, ◌>>=◌}
use sharepaste.Client.Task.Outcomes.{Leaves-done, Leaves-bind, Leaves-reads, Leaves-if}
use sharepaste.Client.Ports.{Ports}
use sharepaste.Client.SharePaste.Realtime.{start_realtime, stop_realtime}
use sharepaste.Client.SharePaste.Coherence.{
  Sane, KeepsSane, current_state-KeepsSane, asks-KeepsSane,
}
use sharepaste.Client.SharePaste.Coherence.Items.{send_text-KeepsSane, send_file-KeepsSane}
use sharepaste.Client.SharePaste.Coherence.Registration.{
  bootstrap-KeepsSane, recover_group_client-KeepsSane,
}
use sharepaste.Client.SharePaste.Coherence.Calls.{
  client_create_bind_code-KeepsSane, client_request_bind-KeepsSane, client_confirm_bind-KeepsSane,
  client_list_devices-KeepsSane, client_remove_device-KeepsSane, client_get_policy-KeepsSane,
  client_update_policy-KeepsSane, start_realtime-Sane, stop_realtime-Sane,
}
use sharepaste.Client.Bridge.Handlers.{
  Bridge, Conversions, on_client, ensure_ready, with_snapshot, on_inspect_state, on_bootstrap,
  on_recover, on_get_state, on_list_devices, on_remove_device, on_get_policy, on_update_policy,
  on_create_bind_code, on_request_bind, on_confirm_bind, on_start_realtime, halt, on_stop_realtime,
  on_send_text, on_send_file, on_send_image, emit_change, on_clipboard_change, on_shutdown,
}
use sharepaste.Client.Bridge.Dispatch.{
  Method, run_method, inspect_state, bootstraps, recovers, gets_state, lists_devices,
  removes_device, gets_policy, updates_policy, creates_code, requests_bind, confirms_bind,
  starts_realtime, stops_realtime, sends_text, sends_file, sends_image, notifies_change, shuts_down,
}
use sharepaste.Client.Bridge.Coherence.{
  InStep, KeepsInStep, bind-KeepsInStep, done-KeepsInStep, throw-KeepsInStep, settle-KeepsInStep,
  reads-KeepsInStep, if-KeepsInStep, Leaves-on_client, on_client-KeepsInStep,
  becomes_ready-KeepsInStep, required-KeepsInStep, set_running-InStep,
}

module _ {X : Type 0} where
  with_snapshot-KeepsInStep : KeepsInStep {X = X} with_snapshot
  unfolding with_snapshot
  with_snapshot-KeepsInStep =
      bind-KeepsInStep _ _ (on_client-KeepsInStep _ λ loop. current_state-KeepsSane)
        λ s. done-KeepsInStep _

module _ {X : Type 0} (ports : Ports X) (js : Conversions) (default_name : String) where
  ensure_ready-KeepsInStep : KeepsInStep (ensure_ready ports js default_name)
  unfolding ensure_ready
  ensure_ready-KeepsInStep = bind-KeepsInStep _ _ (reads-KeepsInStep _) λ already.
      if-KeepsInStep _ _ _ (done-KeepsInStep tt) (
        bind-KeepsInStep _ _ (on_client-KeepsInStep _ λ loop. asks-KeepsSane _) λ loaded.
          bind-KeepsInStep _ _ (settle-KeepsInStep _) λ existing.
            bind-KeepsInStep _ _ (on_client-KeepsInStep _ λ loop. bootstrap-KeepsSane ports _)
              λ s. becomes_ready-KeepsInStep)

  emit_change-KeepsInStep :
      (send : Task (Client X) Bool)
      → ((loop : Bool) → KeepsSane loop send)
      → KeepsInStep (emit_change ports js default_name send)
  unfolding emit_change
  emit_change-KeepsInStep send k = bind-KeepsInStep _ _ (reads-KeepsInStep _) λ listening.
      if-KeepsInStep _ _ _
        (bind-KeepsInStep _ _ (on_client-KeepsInStep send k) λ sent. done-KeepsInStep tt)
        (done-KeepsInStep tt)

  -- A handler that first makes the client ready.
  ready_then :
      {A : Type 0} (f : Unit {0} → Task (Bridge X) A)
      → KeepsInStep (f tt)
      → KeepsInStep (ensure_ready ports js default_name >>= f)
  ready_then f k = bind-KeepsInStep _ _ ensure_ready-KeepsInStep λ ready. k

  -- A handler that ends with a call of the client.
  client_then :
      {A B : Type 0} (m : Task (Client X) A) (f : A → Task (Bridge X) B)
      → ((loop : Bool) → KeepsSane loop m)
      → ((a : A) → KeepsInStep (f a))
      → KeepsInStep (on_client m >>= f)
  client_then m f k kf = bind-KeepsInStep _ _ (on_client-KeepsInStep m k) kf

  on_start_realtime-KeepsInStep : KeepsInStep (on_start_realtime ports js default_name)
  unfolding on_start_realtime
  on_start_realtime-KeepsInStep = ready_then _ λ b v. Leaves-reads _ _ b (
      Leaves-bind _ InStep _ b
        (Leaves-if b.realtime_running _ _ b (λ on. Leaves-done tt b v)
          λ off.
            Leaves-bind _ (λ b'. Sane true b'.client) _ b
              (Leaves-on_client (Sane true) (Sane b.realtime_running) (start_realtime ports) b
                (start_realtime-Sane ports b.client v off) (λ c v'. v') (λ c v'. v'))
              λ started b' v'. set_running-InStep true b' v')
        λ done_so b' v'.
          (bind-KeepsInStep _ _ with_snapshot-KeepsInStep
              λ s. bind-KeepsInStep _ _ (reads-KeepsInStep _) λ now. done-KeepsInStep _)
            b' v')

  halt-KeepsInStep : KeepsInStep (halt ports js default_name)
  unfolding halt
  halt-KeepsInStep b v = Leaves-reads _ _ b (
      Leaves-if b.realtime_running _ _ b
        (λ on.
          Leaves-bind _ (λ b'. Sane false b'.client) _ b
            (Leaves-on_client (Sane false) (Sane b.realtime_running) (stop_realtime ports) b
              (stop_realtime-Sane ports b.client v) (λ c v'. v') (λ c v'. v'))
            λ stopped b' v'. set_running-InStep false b' v')
        λ off. Leaves-done tt b v)

  on_clipboard_change-KeepsInStep :
      (params : Fields) → KeepsInStep (on_clipboard_change ports js default_name params)
  unfolding on_clipboard_change
  on_clipboard_change-KeepsInStep params = ready_then _ (
      if-KeepsInStep _ _ _
        (bind-KeepsInStep _ _ (emit_change-KeepsInStep _ λ loop. send_text-KeepsSane ports _ none)
          λ sent. done-KeepsInStep _)
        (if-KeepsInStep _ _ _
          (bind-KeepsInStep _ _ (required-KeepsInStep _ _) λ path.
            bind-KeepsInStep _ _
              (emit_change-KeepsInStep _ λ loop. send_file-KeepsSane ports _ _ true)
              λ sent. done-KeepsInStep _)
          (throw-KeepsInStep _)))

  pub run_method-KeepsInStep :
      (method : Method) (params : Fields)
      → KeepsInStep (run_method ports js default_name method params)
  unfolding run_method on_inspect_state on_bootstrap on_recover on_get_state on_list_devices
      on_remove_device on_get_policy on_update_policy on_create_bind_code on_request_bind
      on_confirm_bind on_stop_realtime on_send_text on_send_file on_send_image on_shutdown
  run_method-KeepsInStep inspect_state params =
      client_then _ _ (λ loop. asks-KeepsSane _) λ loaded. done-KeepsInStep _
  run_method-KeepsInStep bootstraps params =
      client_then _ _ (λ loop. bootstrap-KeepsSane ports _)
        λ s. bind-KeepsInStep _ _ becomes_ready-KeepsInStep λ ready. done-KeepsInStep _
  run_method-KeepsInStep recovers params = bind-KeepsInStep _ _ (required-KeepsInStep _ _) λ phrase.
      client_then _ _ (λ loop. recover_group_client-KeepsSane ports phrase _)
        λ s. bind-KeepsInStep _ _ becomes_ready-KeepsInStep λ ready. done-KeepsInStep _
  run_method-KeepsInStep gets_state params =
      ready_then _ (bind-KeepsInStep _ _ with_snapshot-KeepsInStep λ s. done-KeepsInStep _)
  run_method-KeepsInStep lists_devices params =
      ready_then _
        (client_then _ _ (λ loop. client_list_devices-KeepsSane ports) λ found. done-KeepsInStep _)
  run_method-KeepsInStep removes_device params = ready_then _ (
      bind-KeepsInStep _ _ (required-KeepsInStep _ _) λ target.
        client_then _ _ (λ loop. client_remove_device-KeepsSane ports target)
          λ gone. done-KeepsInStep _)
  run_method-KeepsInStep gets_policy params =
      ready_then _
        (client_then _ _ (λ loop. client_get_policy-KeepsSane ports) λ p. done-KeepsInStep _)
  run_method-KeepsInStep updates_policy params = ready_then _ (
      client_then _ _ (λ loop. client_update_policy-KeepsSane ports _)
        λ updated.
          client_then _ _ (λ loop. client_get_policy-KeepsSane ports) λ p. done-KeepsInStep _)
  run_method-KeepsInStep creates_code params =
      ready_then _
        (client_then _ _ (λ loop. client_create_bind_code-KeepsSane ports) λ c. done-KeepsInStep _)
  run_method-KeepsInStep requests_bind params = ready_then _ (
      bind-KeepsInStep _ _ (required-KeepsInStep _ _) λ code.
        client_then _ _ (λ loop. client_request_bind-KeepsSane ports code) λ r. done-KeepsInStep _)
  run_method-KeepsInStep confirms_bind params = ready_then _ (
      bind-KeepsInStep _ _ (required-KeepsInStep _ _) λ request.
        client_then _ _ (λ loop. client_confirm_bind-KeepsSane ports request _)
          λ r. done-KeepsInStep _)
  run_method-KeepsInStep starts_realtime params = on_start_realtime-KeepsInStep
  run_method-KeepsInStep stops_realtime params =
      bind-KeepsInStep _ _ halt-KeepsInStep
        λ halted. bind-KeepsInStep _ _ (reads-KeepsInStep _) λ now. done-KeepsInStep _
  run_method-KeepsInStep sends_text params =
      ready_then _
        (client_then _ _ (λ loop. send_text-KeepsSane ports _ none) λ sent. done-KeepsInStep _)
  run_method-KeepsInStep sends_file params = ready_then _ (
      bind-KeepsInStep _ _ (required-KeepsInStep _ _) λ path.
        client_then _ _ (λ loop. send_file-KeepsSane ports path _ false) λ sent. done-KeepsInStep _)
  run_method-KeepsInStep sends_image params = ready_then _ (
      bind-KeepsInStep _ _ (required-KeepsInStep _ _) λ path.
        client_then _ _ (λ loop. send_file-KeepsSane ports path _ true) λ sent. done-KeepsInStep _)
  run_method-KeepsInStep notifies_change params = on_clipboard_change-KeepsInStep params
  run_method-KeepsInStep shuts_down params =
      bind-KeepsInStep _ _ halt-KeepsInStep λ halted. done-KeepsInStep _
