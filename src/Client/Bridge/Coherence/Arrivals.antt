-- ===== src/Client/Bridge/Coherence/Arrivals.antt =====
-- Runs of the bridge, of requests and messages of the stream
-- (apps/client-cli/src/runtime/runtime-bridge.ts).
use sharepaste.Prelude.{◌≡◌, refl, String, true, Option, none, some, List, [], ◌∷◌, sym}
use sharepaste.Client.Task.{Outcome, returned, thrown}
use sharepaste.Client.Task.Outcomes.{Leaves}
use sharepaste.Client.Ports.{Ports}
use sharepaste.Client.Session.Coherence.{coherent}
use sharepaste.Client.SharePaste.Coherence.Calls.{on_message-KeepsSane}
use sharepaste.Client.Bridge.Handlers.{Bridge, BridgeRequest, Conversions}
use sharepaste.Client.Bridge.Dispatch.{
  Arrival, requested, received, Method, handle_request, arrive, after_arrivals, new_bridge,
  answer_with,
}
use sharepaste.Client.Bridge.Coherence.{InStep, on_client-KeepsInStep}
use sharepaste.Client.Bridge.Coherence.Requests.{run_method-KeepsInStep}

left_so : {X A : Type 0} (r : Outcome A × Bridge X) → Leaves InStep InStep r → InStep r.1
left_so (returned a, b) h = h.left
left_so (thrown m, b) h = h.left

module _ {X : Type 0} (ports : Ports X) (js : Conversions) (default_name : String) where
  answered-InStep :
      (method : Option Method) (request : BridgeRequest) (b : Bridge X)
      → InStep b
      → InStep (answer_with ports js default_name method request b).1
  unfolding answer_with
  answered-InStep none request b v = v
  answered-InStep (some method) request b v =
      left_so _ (run_method-KeepsInStep ports js default_name method request.params b v)

  arrive-InStep :
      (a : Arrival) (b : Bridge X) → InStep b → InStep (arrive ports js default_name a b)
  unfolding arrive handle_request
  arrive-InStep (requested request) b v = answered-InStep _ request b v
  arrive-InStep (received id message) b v =
      left_so _ (on_client-KeepsInStep _ (λ loop. on_message-KeepsSane ports id message) b v)

  arrivals-InStep :
      (arrivals : List Arrival) (b : Bridge X)
      → InStep b
      → InStep (after_arrivals ports js default_name arrivals b)
  unfolding after_arrivals
  arrivals-InStep [] b v = v
  arrivals-InStep (a ∷ rest) b v =
      arrivals-InStep rest (arrive ports js default_name a b) (arrive-InStep a b v)

  -- After any requests and messages of the stream that came to a new bridge, whatever the ports
  -- return or throw, the bridge's running flag is whether the client has a realtime loop, and the
  -- session has a state together with the sync engine of its device, or has neither.
  pub bridge_in_step :
      (arrivals : List Arrival) (x : X)
      → let b = after_arrivals ports js default_name arrivals (new_bridge x) in
        (b.realtime_running ≡ b.client.realtime_loop)
        × (coherent b.client.session.state b.client.session.sync_engine ≡ true)
  unfolding new_bridge
  bridge_in_step arrivals x =
      let v = arrivals-InStep arrivals (new_bridge x) (record { fits = refl; loops = refl }) in
      (sym v.loops, v.fits)
