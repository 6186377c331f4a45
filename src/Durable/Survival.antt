-- ===== src/Durable/Survival.antt =====
-- What a restart of the server finds after a call of the durable store (apps/server/src/store/
-- durable-sharepaste-store.ts).
use sharepaste.Prelude.{
  ℕ, ◌≡◌, refl, ap, subst, String, Bool, true, false, Option, none, some, if◌then◌else◌,
}
use sharepaste.Env.{Env}
use sharepaste.Exec.{Exec, Result, ok, err}
use sharepaste.Store.Snapshot.{snapshot_of, from_snapshot}
use sharepaste.Store.Devices.{remove_device}
use sharepaste.Store.Calls.{
  Call, registers, asks_context, creates_code, recovers, asks_devices, asks_policy, renames,
  removes, acks, requests_bind, confirms, updates_policy, pushes, fetches, opens, closes,
}
use sharepaste.Durable.Interfaces.{Persistence, RuntimeSignals}
use sharepaste.Durable.{
  DurableStore, create, after, persist, limited_by, with_persist, with_rate_limit,
  durable_remove_device,
}
use sharepaste.Durable.Contract.{upkeep_of, is_saved}
use sharepaste.Durable.Calls.{durable_perform, forgets}
use sharepaste.Durable.Restarts.{
  Keeps, returned, InStep, persist-saves, after-cases, with_persist-InStep,
}

module _ {P R : Type 0} (env : Env) (persistence : Persistence P) (runtime : RuntimeSignals R) where
  -- What is forgotten of a result changes nothing else.
  forgets-InStep :
      {A : Type 0} (m : Result A × DurableStore P R)
      → (returned env persistence runtime m.0 ≡ true → InStep env persistence runtime m)
      → returned env persistence runtime (forgets env persistence runtime m).0 ≡ true
      → InStep env persistence runtime (forgets env persistence runtime m)
  forgets-InStep (ok a, d) k h = k refl
  forgets-InStep (err e, d) k h = absurd (cc h)

  limited_by-InStep :
      {A : Type 0} (m : DurableStore P R → Result A × DurableStore P R)
      → ((d : DurableStore P R)
          → returned env persistence runtime (m d).0 ≡ true
          → InStep env persistence runtime (m d))
      → (verdict : Option (Bool × R)) (d : DurableStore P R)
      → returned env persistence runtime (limited_by env persistence runtime verdict m d).0 ≡ true
      → InStep env persistence runtime (limited_by env persistence runtime verdict m d)
  limited_by-InStep m k none d h = absurd (cc h)
  limited_by-InStep m k (some (true, r)) d h = k _ h
  limited_by-InStep m k (some (false, r)) d h = absurd (cc h)

  persist-InStep :
      Keeps persistence
      → {A : Type 0} (m : Result A × DurableStore P R) (touch : R → R)
      → let out =
          after env persistence runtime m
            λ _ d1. persist env persistence runtime (record d1 { signals = touch d1.signals }) in
        returned env persistence runtime out.0 ≡ true → InStep env persistence runtime out
  persist-InStep laws m touch =
      after-cases env persistence runtime m _
        λ _ d1 _ h. persist-saves env persistence runtime laws _ h

  cleared-InStep :
      (removed : Bool) (target : String) (d : DurableStore P R)
      → InStep env persistence runtime {A = Bool} (ok removed, d)
      → InStep env persistence runtime {A = Bool} (
        ok removed,
        if removed then record d { signals = runtime.clear_presence target d.signals } else d,
      )
  cleared-InStep true target d h = h
  cleared-InStep false target d h = h

  module _ (laws : Keeps persistence) (fuel : ℕ) where
    saved_call :
        {A : Type 0} (action : String) (actor : Exec A) (d : DurableStore P R)
        → let out =
            forgets env persistence runtime (with_persist env persistence runtime action actor d) in
          returned env persistence runtime out.0 ≡ true → InStep env persistence runtime out
    saved_call action actor d =
        forgets-InStep _ (with_persist-InStep env persistence runtime laws action actor d)

    limited_call :
        {A : Type 0} (id action : String) (max : ℕ) (actor : Exec A) (d : DurableStore P R)
        → let out = forgets env persistence runtime (
            with_rate_limit env persistence runtime id action max
              (with_persist env persistence runtime action actor)
              d) in
          returned env persistence runtime out.0 ≡ true → InStep env persistence runtime out
    unfolding with_rate_limit
    limited_call id action max actor d =
        forgets-InStep _
          (limited_by-InStep _ (with_persist-InStep env persistence runtime laws action actor) _ d)

    removed_call :
        (id target : String) (d : DurableStore P R)
        → returned env persistence runtime
            (durable_remove_device env persistence runtime id target d).0
          ≡ true
        → InStep env persistence runtime (durable_remove_device env persistence runtime id target d)
    unfolding durable_remove_device
    removed_call id target d =
        let removal =
          with_persist env persistence runtime "remove_device" (remove_device env id target) in
        after-cases env persistence runtime (removal d) _ λ removed d1 e h.
          cleared-InStep removed target d1 (
            subst
              (λ r. returned env persistence runtime r.0 ≡ true → InStep env persistence runtime r)
              e (with_persist-InStep env persistence runtime laws _ _ d) refl)

    -- A call that may change what is kept, and returned, leaves what is loaded in step.
    durable_perform-InStep :
        (c : Call) (d : DurableStore P R)
        → is_saved (upkeep_of c) ≡ true
        → returned env persistence runtime (durable_perform env persistence runtime fuel c d).0
          ≡ true
        → InStep env persistence runtime (durable_perform env persistence runtime fuel c d)
    unfolding durable_perform
    durable_perform-InStep (registers input) d care = saved_call _ _ d
    durable_perform-InStep (recovers name platform pubkey phrase) d care = saved_call _ _ d
    durable_perform-InStep (asks_context id) d care = absurd (cc care)
    durable_perform-InStep (asks_devices id) d care = absurd (cc care)
    durable_perform-InStep (asks_policy id) d care = absurd (cc care)
    durable_perform-InStep (creates_code id) d care = limited_call _ _ _ _ d
    durable_perform-InStep (renames id name) d care = saved_call _ _ d
    durable_perform-InStep (removes id target) d care =
        forgets-InStep (durable_remove_device env persistence runtime id target d)
          (removed_call id target d)
    durable_perform-InStep (acks id item) d care = saved_call _ _ d
    durable_perform-InStep (requests_bind code id) d care = limited_call _ _ _ _ d
    durable_perform-InStep (confirms request id approve) d care = saved_call _ _ d
    durable_perform-InStep (updates_policy id version patch) d care = saved_call _ _ d
    durable_perform-InStep (pushes id item) d care = saved_call _ _ d
    durable_perform-InStep (fetches id limit) d care = absurd (cc care)
    durable_perform-InStep (opens id addr stream) d care =
        persist-InStep laws _ (runtime.touch_presence id addr)
    durable_perform-InStep (closes id) d care = persist-InStep laws _ (runtime.clear_presence id)

  -- After a call of the durable store that returned, other than getDeviceContext, listDevices,
  -- getPolicy and fetchOffline, which save nothing, a restart builds its store from the snapshot
  -- of the store as it is. Premise: the persistence loads what was saved last, also after an audit
  -- record.
  pub durable_perform-survives :
      Keeps persistence
      → (fuel : ℕ) (c : Call) (d : DurableStore P R)
      → let out = durable_perform env persistence runtime fuel c d in
        is_saved (upkeep_of c) ≡ true
        → returned env persistence runtime out.0 ≡ true
        → (signals : R)
        → (create persistence out.1.persisted signals).inner.store
          ≡ from_snapshot (some (snapshot_of out.1.inner.store))
  unfolding create
  durable_perform-survives laws fuel c d care h signals =
      ap from_snapshot (durable_perform-InStep laws fuel c d care h)
