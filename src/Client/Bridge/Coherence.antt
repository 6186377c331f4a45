-- ===== src/Client/Bridge/Coherence.antt =====
-- The flags of the bridge and its client through the handlers
-- (apps/client-cli/src/runtime/runtime-bridge.ts).
pub mod Requests
pub mod Arrivals
use sharepaste.Prelude.{◌≡◌, refl, String, Bool, true, false, ◌==◌, if◌then◌else◌}
use sharepaste.Client.Task.{
  Client, Task, Outcome, returned, thrown, done, throw, settle, reads, changes, ◌>>=◌,
}
use sharepaste.Client.Task.Outcomes.{
  Leaves, Leaves-done, Leaves-throw, Leaves-settle, Leaves-bind, Leaves-reads, Leaves-if,
  Leaves-changes_last,
}
use sharepaste.Client.Bridge.Handlers.{Bridge, on_client, required, set_running, becomes_ready}
use sharepaste.Client.SharePaste.Coherence.{Sane, KeepsSane}

-- The flag of the bridge is the client's, and the client's session is sane.
abbrev pub InStep : {X : Type 0} → Bridge X → Type 0
InStep b = Sane b.realtime_running b.client

abbrev pub KeepsInStep : {X A : Type 0} → Task (Bridge X) A → Type 0
KeepsInStep m = (b : Bridge _) → InStep b → Leaves InStep InStep (m b)

module _ {X A : Type 0} where
  pub bind-KeepsInStep :
      {B : Type 0} (m : Task (Bridge X) A) (f : A → Task (Bridge X) B)
      → KeepsInStep m
      → ((a : A) → KeepsInStep (f a))
      → KeepsInStep (m >>= f)
  bind-KeepsInStep m f km kf b v = Leaves-bind f InStep m b (km b v) kf

  pub done-KeepsInStep : (a : A) → KeepsInStep {X = X} (done a)
  done-KeepsInStep a b v = Leaves-done a b v

  pub throw-KeepsInStep : (message : String) → KeepsInStep {X = X} {A = A} (throw message)
  throw-KeepsInStep message b v = Leaves-throw message b v

  pub settle-KeepsInStep : (o : Outcome A) → KeepsInStep {X = X} (settle o)
  settle-KeepsInStep o b v = Leaves-settle o b v v

  pub reads-KeepsInStep : (f : Bridge X → A) → KeepsInStep (reads f)
  unfolding reads
  reads-KeepsInStep f b v = record { left = v }

  pub if-KeepsInStep :
      (t : Bool) (m n : Task (Bridge X) A)
      → KeepsInStep m
      → KeepsInStep n
      → KeepsInStep (if t then m else n)
  if-KeepsInStep true m n km kn = km
  if-KeepsInStep false m n km kn = kn

  carried :
      {P Q : Bridge X → Type 0} {P' Q' : Client X → Type 0} (b : Bridge X)
      (r : Outcome A × Client X)
      → Leaves P' Q' r
      → ((c : Client X) → P' c → P (record b { client = c }))
      → ((c : Client X) → Q' c → Q (record b { client = c }))
      → Leaves P Q (r.0, record b { client = r.1 })
  carried b (returned a, c) h p q = record { left = p c h.left }
  carried b (thrown m, c) h p q = record { left = q c h.left }

  pub Leaves-on_client :
      {P Q : Bridge X → Type 0} (P' Q' : Client X → Type 0) (m : Task (Client X) A) (b : Bridge X)
      → Leaves P' Q' (m b.client)
      → ((c : Client X) → P' c → P (record b { client = c }))
      → ((c : Client X) → Q' c → Q (record b { client = c }))
      → Leaves P Q (on_client m b)
  unfolding on_client
  Leaves-on_client P' Q' m b h p q = carried b (m b.client) h p q

  pub on_client-KeepsInStep :
      (m : Task (Client X) A) → ((loop : Bool) → KeepsSane loop m) → KeepsInStep (on_client m)
  on_client-KeepsInStep m k b v =
      Leaves-on_client _ _ m b (k b.realtime_running b.client v) (λ c v'. v') (λ c v'. v')

pub becomes_ready-KeepsInStep : {X : Type 0} → KeepsInStep {X = X} becomes_ready
unfolding becomes_ready
becomes_ready-KeepsInStep b v = Leaves-changes_last _ b v

pub required-KeepsInStep :
    {X : Type 0} (value message : String) → KeepsInStep {X = X} (required value message)
unfolding required
required-KeepsInStep value message =
    if-KeepsInStep _ _ _ (throw-KeepsInStep message) (done-KeepsInStep value)

-- The flag follows the client.
pub set_running-InStep :
    {X : Type 0} {Q : Bridge X → Type 0} (value : Bool) (b : Bridge X)
    → Sane value b.client
    → Leaves InStep Q (set_running value b)
unfolding set_running
set_running-InStep value b v = Leaves-changes_last _ b v
