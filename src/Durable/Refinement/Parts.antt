-- ===== src/Durable/Refinement/Parts.antt =====
-- The parts of a call of the durable store (apps/server/src/store/durable-sharepaste-store.ts)
-- against its contract.
use sharepaste.Prelude.{
  ℕ, ◌≡◌, refl, ap, String, Bool, true, false, Option, none, some, if◌then◌else◌,
}
use sharepaste.Types.{SharePasteSnapshot}
use sharepaste.Env.{Env}
use sharepaste.Exec.{World, Exec, Error, Result, ok, err, pure, continue, ◌>>=◌, storage_failed}
use sharepaste.Store.Calls.{Call, perform}
use sharepaste.Durable.Interfaces.{Persistence, RuntimeSignals}
use sharepaste.Durable.{
  DurableStore, after, saved, exported, persist, audit_success, run_inner, with_persist, limited_by,
}
use sharepaste.Durable.Contract.{
  Limit, limit_of, upkeep_of, nothing, saving, auditing, is_saved, exported_world, ticked, verdict,
  over, unreachable, Admitted, unlimited, within, Serves, refused, throws, reads, saves, audits,
  unsaved, unaudited,
}
use sharepaste.Durable.Calls.{forgets}

-- What is left of a call when its result is forgotten.
abbrev pub plain : {A : Type 0} → Result A × World → Result (Unit {0}) × World
plain (ok a, w) = (ok tt, w)
plain (err e, w) = (err e, w)

plain_result : {A : Type 0} (r : Result A × World) → continue r.0 (λ (_ : A). pure tt) r.1 ≡ plain r
unfolding continue pure
plain_result (ok a, w) = refl
plain_result (err e, w) = refl

pub forgotten : {A : Type 0} (m : Exec A) (w : World) → (m >>= λ _. pure tt) w ≡ plain (m w)
unfolding ◌>>=◌
forgotten m w = plain_result (m w)

-- How a call ends whose inner call returned in the world `v`.
data Upkept (env : Env) (v : World) (r : Result (Unit {0})) (u : World) : Type 0 where
  kept : r ≡ ok tt → u ≡ ticked (exported_world env v) → Upkept env v r u
  not_saved : (e : Error) → r ≡ err e → u ≡ exported_world env v → Upkept env v r u
  not_audited : (e : Error) → r ≡ err e → u ≡ ticked (exported_world env v) → Upkept env v r u

module _ {P R : Type 0} (env : Env) (persistence : Persistence P) (runtime : RuntimeSignals R)
    (fuel : ℕ) where
  abbrev pub Left : Type 0
  Left = Result (Unit {0}) × DurableStore P R

  abbrev pub Serving : Call → R → World → Left → Type 0
  Serving c signals w out = Serves runtime env fuel c signals w out.0 out.1.inner

  abbrev Keeping : World → Left → Type 0
  Keeping v out = Upkept env v out.0 out.1.inner

  audited :
      {A : Type 0} (a : A) (v : World) (p : Option P) (d : DurableStore P R)
      → d.inner ≡ ticked (exported_world env v)
      → Keeping v (
          forgets env persistence runtime
            (after env persistence runtime (saved env persistence runtime p d) λ _ d3. (ok a, d3)))
  audited a v none d e = not_audited storage_failed refl e
  audited a v (some p) d e = kept refl e

  saved_then :
      {A : Type 0} (a : A) (v : World) (action : String) (p : Option P) (d : DurableStore P R)
      → d.inner ≡ exported_world env v
      → Keeping v (
          forgets env persistence runtime (
            after env persistence runtime (saved env persistence runtime p d) λ _ d2.
              after env persistence runtime
                (audit_success env persistence runtime action d2)
                λ _ d3. (ok a, d3)))
  unfolding audit_success
  saved_then a v action none d e = not_saved storage_failed refl e
  saved_then a v action (some p) d e = audited a v _ _ (ap ticked e)

  exported_then :
      {A : Type 0} (a : A) (v : World) (action : String) (s : Result SharePasteSnapshot)
      (d : DurableStore P R)
      → d.inner ≡ exported_world env v
      → Keeping v (
          forgets env persistence runtime (
            after env persistence runtime (exported env persistence runtime s d) λ _ d2.
              after env persistence runtime
                (audit_success env persistence runtime action d2)
                λ _ d3. (ok a, d3)))
  exported_then a v action (err e) d h = not_saved e refl h
  exported_then a v action (ok snapshot) d h = saved_then a v action _ d h

  audited_call :
      (c : Call) (signals : R) (w v : World) (r : Result (Unit {0})) (u : World)
      → Admitted runtime c signals
      → upkeep_of c ≡ auditing
      → perform env fuel c w ≡ (ok tt, v)
      → Upkept env v r u
      → Serves runtime env fuel c signals w r u
  audited_call c signals w v _ _ admitted care done (kept h k) = audits v admitted care done h k
  audited_call c signals w v _ _ admitted care done (not_saved e h k) =
      unsaved v e admitted (ap is_saved care) done h k
  audited_call c signals w v _ _ admitted care done (not_audited e h k) =
      unaudited v e admitted care done h k

  -- An inner call, the saving of the snapshot and the audit record.
  persisted :
      {A : Type 0} (c : Call) (signals : R) (action : String) (w : World) (p : Result A × World)
      (d : DurableStore P R)
      → Admitted runtime c signals
      → upkeep_of c ≡ auditing
      → perform env fuel c w ≡ plain p
      → Serving c signals w (
          forgets env persistence runtime (
            after env persistence runtime
              (p.0, record d { inner = p.1 })
              λ result d1.
                after env persistence runtime (persist env persistence runtime d1) λ _ d2.
                  after env persistence runtime
                    (audit_success env persistence runtime action d2)
                    λ _ d3. (ok result, d3)))
  unfolding persist
  persisted c signals action w (err e, v) d admitted care done = throws e admitted done refl
  persisted c signals action w (ok a, v) d admitted care done =
      audited_call c signals w v _ _ admitted care done (exported_then a v action _ _ refl)

  pub with_persist-Serves :
      {A : Type 0} (c : Call) (signals : R) (action : String) (actor : Exec A)
      (d : DurableStore P R)
      → Admitted runtime c signals
      → upkeep_of c ≡ auditing
      → perform env fuel c d.inner ≡ plain (actor d.inner)
      → Serving c signals d.inner
          (forgets env persistence runtime (with_persist env persistence runtime action actor d))
  unfolding with_persist run_inner
  with_persist-Serves c signals action actor d admitted care done =
      persisted c signals action d.inner (actor d.inner) d admitted care done

  pub limited_by-Serves :
      {A : Type 0} (c : Call) (l : Limit) (m : DurableStore P R → Result A × DurableStore P R)
      (d : DurableStore P R)
      → limit_of c ≡ some l
      → (verdict_now : Option (Bool × R)) → verdict runtime l d.signals ≡ verdict_now
      → ((after_it : R)
          → Admitted runtime c d.signals
          → Serving c d.signals d.inner
              (forgets env persistence runtime (m (record d { signals = after_it }))))
      → Serving c d.signals d.inner
          (forgets env persistence runtime (limited_by env persistence runtime verdict_now m d))
  limited_by-Serves c l m d limit none e k = refused (unreachable l limit e refl) refl
  limited_by-Serves c l m d limit (some (true, r)) e k = k r (within l r limit e)
  limited_by-Serves c l m d limit (some (false, r)) e k = refused (over l r limit e refl) refl

  read :
      {A : Type 0} (c : Call) (w : World) (p : Result A × World) (d : DurableStore P R)
      → limit_of c ≡ none
      → upkeep_of c ≡ nothing
      → perform env fuel c w ≡ plain p
      → Serving c d.signals w (forgets env persistence runtime (p.0, record d { inner = p.1 }))
  read c w (err e, v) d limit care done = throws e (unlimited limit) done refl
  read c w (ok a, v) d limit care done = reads (unlimited limit) care done refl

  pub run_inner-Serves :
      {A : Type 0} (c : Call) (actor : Exec A) (d : DurableStore P R)
      → limit_of c ≡ none
      → upkeep_of c ≡ nothing
      → perform env fuel c d.inner ≡ plain (actor d.inner)
      → Serving c d.signals d.inner
          (forgets env persistence runtime (run_inner env persistence runtime actor d))
  unfolding run_inner
  run_inner-Serves c actor d limit care done = read c d.inner (actor d.inner) d limit care done

  saved_last :
      (c : Call) (signals : R) (w v : World) (p : Option P) (d : DurableStore P R)
      → limit_of c ≡ none
      → upkeep_of c ≡ saving
      → perform env fuel c w ≡ (ok tt, v)
      → d.inner ≡ exported_world env v
      → Serving c signals w (saved env persistence runtime p d)
  saved_last c signals w v none d limit care done u =
      unsaved v storage_failed (unlimited limit) (ap is_saved care) done refl u
  saved_last c signals w v (some p) d limit care done u = saves v (unlimited limit) care done refl u

  exported_last :
      (c : Call) (signals : R) (w v : World) (s : Result SharePasteSnapshot) (d : DurableStore P R)
      → limit_of c ≡ none
      → upkeep_of c ≡ saving
      → perform env fuel c w ≡ (ok tt, v)
      → d.inner ≡ exported_world env v
      → Serving c signals w (exported env persistence runtime s d)
  exported_last c signals w v (err e) d limit care done u =
      unsaved v e (unlimited limit) (ap is_saved care) done refl u
  exported_last c signals w v (ok snapshot) d limit care done u =
      saved_last c signals w v _ d limit care done u

  -- A change of the presence, the signal of it, and the saving of the snapshot.
  signalled :
      (c : Call) (touch : R → R) (w : World) (p : Result (Unit {0}) × World) (d : DurableStore P R)
      → limit_of c ≡ none
      → upkeep_of c ≡ saving
      → perform env fuel c w ≡ p
      → Serving c d.signals w (
          after env persistence runtime
            (p.0, record d { inner = p.1 })
            λ _ d1. persist env persistence runtime (record d1 { signals = touch d1.signals }))
  unfolding persist
  signalled c touch w (err e, v) d limit care done = throws e (unlimited limit) done refl
  signalled c touch w (ok tt, v) d limit care done =
      exported_last c d.signals w v _ _ limit care done refl

  pub signal-Serves :
      (c : Call) (touch : R → R) (actor : Exec (Unit {0})) (d : DurableStore P R)
      → limit_of c ≡ none
      → upkeep_of c ≡ saving
      → perform env fuel c d.inner ≡ actor d.inner
      → Serving c d.signals d.inner (
          after env persistence runtime
            (run_inner env persistence runtime actor d)
            λ _ d1. persist env persistence runtime (record d1 { signals = touch d1.signals }))
  unfolding run_inner
  signal-Serves c touch actor d limit care done =
      signalled c touch d.inner (actor d.inner) d limit care done

  -- The signal that follows a removal leaves the result and the store.
  pub cleared :
      (c : Call) (signals : R) (w : World) (target : String) (m : Result Bool × DurableStore P R)
      → Serving c signals w (forgets env persistence runtime m)
      → Serving c signals w (
          forgets env persistence runtime (
            after env persistence runtime m λ removed d1. (
              ok removed,
              if removed
                  then record d1 { signals = runtime.clear_presence target d1.signals }
                  else d1,
            )))
  cleared c signals w target (err e, d) h = h
  cleared c signals w target (ok true, d) h = h
  cleared c signals w target (ok false, d) h = h
