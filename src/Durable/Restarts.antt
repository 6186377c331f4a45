-- ===== src/Durable/Restarts.antt =====
-- Restarts of the server (apps/server/src/store/durable-sharepaste-store.ts).
use sharepaste.Store.Common.{drop_expired, cleanup_expired}
use sharepaste.Store.Snapshot.{snapshot_of, export_snapshot}
use sharepaste.Prelude.{
  ℕ, ◌≡◌, refl, String, some, arith, true, Option-cases, inl, inr, Bool, false, subst, ◌∙◌,
}
use sharepaste.Types.{SharePasteSnapshot, AuditRecord}
use sharepaste.Env.{Env, now_unix}
use sharepaste.Exec.{Exec, Error, Result, err, rate_limited, ◌>>=◌, ok}
use sharepaste.Durable.Interfaces.{Persistence, RuntimeSignals}
use sharepaste.Durable.{
  DurableStore, run_inner, with_persist, with_rate_limit, audit_success, persist, after,
}

-- The contract of `SharePasteStatePersistence`: what is saved is what is loaded, and an audit
-- record changes no snapshot.
pub record Keeps {P : Type 0} (persistence : Persistence P) : Type 0 where
  pub saves :
      (s : SharePasteSnapshot) (p q : P)
      → persistence.save_snapshot s p ≡ some q
      → persistence.load_snapshot q ≡ some s
  pub audits :
      (a : AuditRecord) (p q : P)
      → persistence.write_audit a p ≡ some q
      → persistence.load_snapshot q ≡ persistence.load_snapshot p

module _ {P R : Type 0} (env : Env) (persistence : Persistence P) (runtime : RuntimeSignals R) where
  -- An operation whose actor throws writes nothing and throws the same.
  with_persist-throws :
      {A : Type 0} (action : String) (actor : Exec A) (d : DurableStore P R) (e : Error)
      → (actor d.inner).0 ≡ err e
      → with_persist env persistence runtime action actor d
        ≡ (err e, record d { inner = (actor d.inner).1 })
  unfolding with_persist run_inner
  with_persist-throws action actor d e h = ground arith

  -- A call over its rate limit throws `RATE_LIMITED`, and neither the store nor what is persisted
  -- changes.
  with_rate_limit-refuses :
      {A : Type 0} (id action : String) (max : ℕ)
      (m : DurableStore P R → Result A × DurableStore P R) (d : DurableStore P R) (r : R)
      → runtime.consume_rate_limit id action max d.signals ≡ some (false, r)
      → with_rate_limit env persistence runtime id action max m d
        ≡ (err rate_limited, record d { signals = r })
  unfolding with_rate_limit
  with_rate_limit-refuses id action max m d r h = rw h refl

  abbrev pub returned : {A : Type 0} → Result A → Bool
  returned (ok a) = true
  returned (err e) = false

  pub persist-saves :
      Keeps persistence
      → (d : DurableStore P R) → returned (persist env persistence runtime d).0 ≡ true
      → persistence.load_snapshot (persist env persistence runtime d).1.persisted
        ≡ some (snapshot_of (persist env persistence runtime d).1.inner.store)
  unfolding persist export_snapshot cleanup_expired ◌>>=◌
  persist-saves laws d h =
      let snapshot = snapshot_of (drop_expired (now_unix env d.inner.draws) d.inner.store) in
      elim (Option-cases (persistence.save_snapshot snapshot d.persisted)) [
        | inl e ↦ ground arith
        | inr (q, e) ↦ rw e (laws.saves snapshot d.persisted q e)
      ]

  audit_success_untouched :
      Keeps persistence
      → (action : String) (d : DurableStore P R)
      → (persistence.load_snapshot (audit_success env persistence runtime action d).1.persisted
          ≡ persistence.load_snapshot d.persisted)
        × ((audit_success env persistence runtime action d).1.inner.store ≡ d.inner.store)
  unfolding audit_success
  audit_success_untouched laws action d =
      let entry : AuditRecord = record {
        action = action;
        success = true;
        created_at_unix = now_unix env d.inner.draws;
      } in
      elim (Option-cases (persistence.write_audit entry d.persisted)) [
        | inl e ↦ rw e (refl, refl)
        | inr (q, e) ↦ rw e (laws.audits entry d.persisted q e, refl)
      ]

  -- The snapshot that is loaded is that of the store.
  abbrev pub InStep : {A : Type 0} → Result A × DurableStore P R → Type 0
  InStep r = persistence.load_snapshot r.1.persisted ≡ some (snapshot_of r.1.inner.store)

  pub after-cases :
      {A B : Type 0} (m : Result A × DurableStore P R)
      (f : A → DurableStore P R → Result B × DurableStore P R)
      → ((a : A) (d1 : DurableStore P R)
          → m ≡ (ok a, d1)
          → returned (f a d1).0 ≡ true
          → InStep (f a d1))
      → returned (after env persistence runtime m f).0 ≡ true
      → InStep (after env persistence runtime m f)
  after-cases (ok a, d1) f k h = k a d1 refl h
  after-cases (err e, d1) f k h = absurd (cc h)

  pub with_persist-InStep :
      Keeps persistence
      → {A : Type 0} (action : String) (actor : Exec A) (d : DurableStore P R)
      → returned (with_persist env persistence runtime action actor d).0 ≡ true
      → InStep (with_persist env persistence runtime action actor d)
  unfolding with_persist
  with_persist-InStep laws action actor d =
      after-cases (run_inner env persistence runtime actor d) _ λ a d1 _.
        after-cases (persist env persistence runtime d1) _ λ _ d2 e.
          let saved_now : InStep {A = Unit {0}} (ok tt, d2) =
            subst (λ r. returned r.0 ≡ true → InStep r) e (persist-saves laws d1) refl in
          after-cases (audit_success env persistence runtime action d2) _ λ _ d3 e' _.
            let kept =
              subst
                (λ r.
                  (persistence.load_snapshot r.1.persisted ≡ persistence.load_snapshot d2.persisted)
                  × (r.1.inner.store ≡ d2.inner.store))
                e' (audit_success_untouched laws action d2) in
            rw kept.1 (kept.0 ∙ saved_now)
