-- ===== src/Client/SharePaste/Coherence.antt =====
-- The session and the flag of the loop through the methods of the client
-- (apps/client-cli/src/core/sharepaste-client.ts).
pub mod Items
pub mod Registration
pub mod Calls
use sharepaste.Client.Ports.{Ports, KeyUpdate}
use sharepaste.Prelude.{
  ◌≡◌, refl, String, Bool, true, false, Option, none, some, arith, eq_iff, ◌==◌, if◌then◌else◌, ◌∙◌,
  ap, subst, sym,
}
use sharepaste.Client.Types.{PersistedState}
use sharepaste.Client.SyncEngine.{SyncEngine}
use sharepaste.Client.Session.{
  ClientSession, engine_for, device_changed, attach, clear, require_sync_engine,
}
use sharepaste.Client.Session.Coherence.{coherent, attached-coherent}
use sharepaste.Client.Task.{
  Client, Task, Outcome, Outside, done, throw, settle, asks, changes, reads, ◌>>=◌, catches,
  then_do, or_throw,
}
use sharepaste.Client.Task.Outcomes.{
  Leaves, Leaves-done, Leaves-throw, Leaves-settle, Leaves-bind, Leaves-changes,
  Leaves-changes_last, Leaves-asks, Leaves-catches,
}
use sharepaste.Client.SharePaste.Keys.{
  attach_state, clear_session, current_state, extract_group_key, open_sealed, get_group_key,
  update_group_key, apply_group_key_update, not_bootstrapped, write_engine, current_engine,
}

-- The session has a state and the engine of its device, or neither; and the flag of the loop.
pub record Sane {X : Type 0} (loop : Bool) (c : Client X) : Type 0 where
  pub fits : coherent c.session.state c.session.sync_engine ≡ true
  pub loops : c.realtime_loop ≡ loop

-- The method leaves it so, whether it returns or throws.
abbrev pub KeepsSane : {X A : Type 0} → Bool → Task (Client X) A → Type 0
KeepsSane loop m = (c : Client _) → Sane loop c → Leaves (Sane loop) (Sane loop) (m c)

-- Besides, the engine is `e`.
pub record HasEngine {X : Type 0} (loop : Bool) (e : SyncEngine) (c : Client X) : Type 0 where
  pub sane : Sane loop c
  pub engine : c.session.sync_engine ≡ some e

attach-coherent :
    (state : PersistedState) (s : ClientSession)
    → coherent s.state s.sync_engine ≡ true
    → coherent (attach state s).state (attach state s).sync_engine ≡ true
unfolding attach
attach-coherent state s h = ground (
  arith,
  eq_iff state.device_id
      (engine_for s.sync_engine (device_changed s.state state) state.device_id).local_device_id,
  attached-coherent s.state s.sync_engine state h,
)

abbrev engine_or : SyncEngine → Option SyncEngine → SyncEngine
engine_or d none = d
engine_or d (some e) = e

-- Another engine of the same device.
coherent_again :
    (state : Option PersistedState) (old : Option SyncEngine) (e e' : SyncEngine)
    → coherent state old ≡ true
    → old ≡ some e
    → e'.local_device_id ≡ e.local_device_id
    → coherent state (some e') ≡ true
coherent_again none none e e' h o same = absurd (cc o)
coherent_again none (some _) e e' h o same = absurd (cc h)
coherent_again (some s) none e e' h o same = absurd (cc o)
coherent_again (some s) (some d) e e' h o same =
    let at : d ≡ e = ap (λ x. engine_or d x) o in
    subst (λ id. (s.device_id == id) ≡ true) (ap (λ x. x.local_device_id) at ∙ sym same) h

module _ {X A : Type 0} {loop : Bool} where
  pub bind-KeepsSane :
      {B : Type 0} (m : Task (Client X) A) (f : A → Task (Client X) B)
      → KeepsSane loop m
      → ((a : A) → KeepsSane loop (f a))
      → KeepsSane loop (m >>= f)
  bind-KeepsSane m f km kf c v = Leaves-bind f (Sane loop) m c (km c v) kf

  pub done-KeepsSane : (a : A) → KeepsSane {X = X} loop (done a)
  done-KeepsSane a c v = Leaves-done a c v

  pub settle-KeepsSane : (o : Outcome A) → KeepsSane {X = X} loop (settle o)
  settle-KeepsSane o c v = Leaves-settle o c v v

  pub throw-KeepsSane : (message : String) → KeepsSane {X = X} {A = A} loop (throw message)
  throw-KeepsSane message c v = Leaves-throw message c v

  pub reads-KeepsSane : (f : Client X → A) → KeepsSane loop (reads f)
  unfolding reads
  reads-KeepsSane f c v = record { left = v }

  pub asks-KeepsSane : (call : Outside X A) → KeepsSane loop (asks call)
  asks-KeepsSane call c v =
      Leaves-asks call c (λ x. record { fits = v.fits; loops = v.loops })
        (λ x. record { fits = v.fits; loops = v.loops })

  pub if-KeepsSane :
      (b : Bool) (m n : Task (Client X) A)
      → KeepsSane loop m
      → KeepsSane loop n
      → KeepsSane loop (if b then m else n)
  if-KeepsSane true m n km kn = km
  if-KeepsSane false m n km kn = kn

  pub catches-KeepsSane :
      (m : Task (Client X) A) (handler : String → Task (Client X) A)
      → KeepsSane loop m
      → ((message : String) → KeepsSane loop (handler message))
      → KeepsSane loop (catches m handler)
  catches-KeepsSane m handler km kh c v = Leaves-catches (Sane loop) m handler c (km c v) kh

module _ {X : Type 0} {loop : Bool} where
  -- Only the history and what is outside change.
  pub aside-KeepsSane :
      (f : Client X → Client X)
      → ((c : Client X) → (f c).session ≡ c.session)
      → ((c : Client X) → (f c).realtime_loop ≡ c.realtime_loop)
      → KeepsSane loop (changes f)
  aside-KeepsSane f same still c v =
      Leaves-changes_last f c (record { fits = rw (same c) v.fits; loops = still c ∙ v.loops })

  pub attach_state-KeepsSane :
      (state : PersistedState) → KeepsSane {X = X} loop (attach_state state)
  unfolding attach_state
  attach_state-KeepsSane state c v =
      Leaves-changes _ _ _ (
        Leaves-done _ _ (record { fits = attach-coherent state c.session v.fits; loops = v.loops }))

  pub clear_session-KeepsSane : KeepsSane {X = X} loop clear_session
  unfolding clear_session clear
  clear_session-KeepsSane c v = Leaves-changes_last _ _ (record { fits = refl; loops = v.loops })

  pub current_state-KeepsSane : KeepsSane {X = X} loop current_state
  unfolding current_state
  current_state-KeepsSane = bind-KeepsSane _ _ (reads-KeepsSane _) λ found. settle-KeepsSane _

module _ {X : Type 0} {loop : Bool} (ports : Ports X) where
  pub extract_group_key-KeepsSane :
      (sealed : String) → KeepsSane loop (extract_group_key ports sealed)
  unfolding extract_group_key open_sealed
  extract_group_key-KeepsSane sealed = bind-KeepsSane _ _ (settle-KeepsSane _) λ parsed.
      if-KeepsSane _ _ _
        (bind-KeepsSane _ _ (reads-KeepsSane _)
          λ found. bind-KeepsSane _ _ (settle-KeepsSane _) λ i. asks-KeepsSane _)
        (if-KeepsSane _ _ _ (done-KeepsSane _) (throw-KeepsSane _))

  pub get_group_key-KeepsSane : KeepsSane loop (get_group_key ports)
  unfolding get_group_key
  get_group_key-KeepsSane =
      bind-KeepsSane _ _ current_state-KeepsSane
        λ state. if-KeepsSane _ _ _ (done-KeepsSane _) (extract_group_key-KeepsSane _)

  pub update_group_key-KeepsSane :
      (update : KeyUpdate) (state : PersistedState)
      → KeepsSane loop (update_group_key ports update state)
  unfolding update_group_key
  update_group_key-KeepsSane update state = bind-KeepsSane _ _ (attach_state-KeepsSane _) λ s.
      bind-KeepsSane _ _ (extract_group_key-KeepsSane _)
        λ key. bind-KeepsSane _ _ (asks-KeepsSane _) λ saved. attach_state-KeepsSane _

  pub apply_group_key_update-KeepsSane :
      (update : KeyUpdate) → KeepsSane loop (apply_group_key_update ports update)
  unfolding apply_group_key_update
  apply_group_key_update-KeepsSane update =
      bind-KeepsSane _ _ current_state-KeepsSane λ state. update_group_key-KeepsSane update state

-- The engine that is read is that of the session.
module _ {X B : Type 0} {loop : Bool} (f : SyncEngine → Task (Client X) B) where
  found_engine :
      (c : Client X) (found : Option SyncEngine)
      → found ≡ c.session.sync_engine
      → Sane loop c
      → ((e : SyncEngine) → HasEngine loop e c → Leaves (Sane loop) (Sane loop) (f e c))
      → Leaves (Sane loop) (Sane loop) (then_do (or_throw found not_bootstrapped) f c)
  unfolding then_do or_throw
  found_engine c none e v k = record { left = v }
  found_engine c (some engine) e v k = k engine (record { sane = v; engine = sym e })

  pub with_engine-KeepsSane :
      ((e : SyncEngine) (c : Client X)
        → HasEngine loop e c
        → Leaves (Sane loop) (Sane loop) (f e c))
      → KeepsSane loop (current_engine >>= f)
  unfolding current_engine require_sync_engine ◌>>=◌
  with_engine-KeepsSane k c v = found_engine c _ refl v λ e h. k e c h

module _ {X A : Type 0} {loop : Bool} {e : SyncEngine} where
  -- A port leaves the engine.
  pub Leaves-asks_with :
      (call : Outside X A) (c : Client X)
      → HasEngine loop e c
      → Leaves (HasEngine loop e) (Sane loop) (asks call c)
  Leaves-asks_with call c v =
      Leaves-asks call c
        (λ x. record {
          sane = record { fits = v.sane.fits; loops = v.sane.loops };
          engine = v.engine;
        })
        (λ x. record { fits = v.sane.fits; loops = v.sane.loops })

module _ {X B : Type 0} {loop : Bool} {e : SyncEngine} where
  -- An engine of the same device is written.
  pub Leaves-write_engine :
      (e' : SyncEngine) (m : Unit {0} → Task (Client X) B) (c : Client X)
      → HasEngine loop e c
      → e'.local_device_id ≡ e.local_device_id
      → KeepsSane loop (m tt)
      → Leaves (Sane loop) (Sane loop) ((write_engine e' >>= m) c)
  unfolding write_engine
  Leaves-write_engine e' m c v same k = Leaves-changes m _ c (
      k _ (record {
        fits = coherent_again c.session.state _ e e' v.sane.fits v.engine same;
        loops = v.sane.loops;
      }))
