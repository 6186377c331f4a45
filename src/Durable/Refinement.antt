-- ===== src/Durable/Refinement.antt =====
-- The durable store (apps/server/src/store/durable-sharepaste-store.ts) against its contract.
mod Parts
use sharepaste.Prelude.{ℕ, ◌≡◌, refl, sym, ap, subst, [], ◌∷◌, List}
use sharepaste.Env.{Env}
use sharepaste.Exec.{World, Result}
use sharepaste.Store.Snapshot.{export_snapshot}
use sharepaste.Store.Calls.{
  Call, perform, registers, asks_context, creates_code, recovers, asks_devices, asks_policy,
  renames, removes, acks, requests_bind, confirms, updates_policy, pushes, fetches, opens, closes,
}
use sharepaste.Durable.Interfaces.{Persistence, RuntimeSignals}
use sharepaste.Durable.{DurableStore, with_rate_limit, Result}
use sharepaste.Durable.Contract.{
  Serves, unlimited, refused, throws, reads, saves, audits, unsaved, unaudited, limit_of,
}
use sharepaste.Durable.Calls.{Reaches, stays, calls, exports, ticks, durable_perform, durable_serve}
use Parts.{
  forgotten, with_persist-Serves, limited_by-Serves, run_inner-Serves, signal-Serves, cleared,
}

module _ {P R : Type 0} (env : Env) (persistence : Persistence P) (runtime : RuntimeSignals R)
    (fuel : ℕ) where
  pub durable_perform_refines :
      (c : Call) (d : DurableStore P R)
      → let out = durable_perform env persistence runtime fuel c d in
        Serves runtime env fuel c d.signals d.inner out.0 out.1.inner
  unfolding durable_perform with_rate_limit perform
  durable_perform_refines (registers input) d =
      with_persist-Serves env persistence runtime fuel (registers input) d.signals _ _ d
        (unlimited refl) refl (forgotten _ d.inner)
  durable_perform_refines (recovers name platform pubkey phrase) d =
      with_persist-Serves env persistence runtime fuel (recovers name platform pubkey phrase)
        d.signals _ _ d (unlimited refl) refl (forgotten _ d.inner)
  durable_perform_refines (asks_context id) d =
      run_inner-Serves env persistence runtime fuel (asks_context id) _ d refl refl
        (forgotten _ d.inner)
  durable_perform_refines (asks_devices id) d =
      run_inner-Serves env persistence runtime fuel (asks_devices id) _ d refl refl
        (forgotten _ d.inner)
  durable_perform_refines (asks_policy id) d =
      run_inner-Serves env persistence runtime fuel (asks_policy id) _ d refl refl
        (forgotten _ d.inner)
  durable_perform_refines (creates_code id) d =
      limited_by-Serves env persistence runtime fuel (creates_code id) _ _ d refl _ refl
        λ after_it admitted.
          with_persist-Serves env persistence runtime fuel (creates_code id) d.signals _ _
            (record d { signals = after_it }) admitted refl (forgotten _ d.inner)
  durable_perform_refines (renames id name) d =
      with_persist-Serves env persistence runtime fuel (renames id name) d.signals _ _ d
        (unlimited refl) refl (forgotten _ d.inner)
  durable_perform_refines (removes id target) d =
      cleared env persistence runtime fuel (removes id target) d.signals d.inner target _ (
        with_persist-Serves env persistence runtime fuel (removes id target) d.signals _ _ d
          (unlimited refl) refl (forgotten _ d.inner))
  durable_perform_refines (acks id item) d =
      with_persist-Serves env persistence runtime fuel (acks id item) d.signals _ _ d
        (unlimited refl) refl (forgotten _ d.inner)
  durable_perform_refines (requests_bind code id) d =
      limited_by-Serves env persistence runtime fuel (requests_bind code id) _ _ d refl _ refl
        λ after_it admitted.
          with_persist-Serves env persistence runtime fuel (requests_bind code id) d.signals _ _
            (record d { signals = after_it }) admitted refl (forgotten _ d.inner)
  durable_perform_refines (confirms request id approve) d =
      with_persist-Serves env persistence runtime fuel (confirms request id approve) d.signals _ _ d
        (unlimited refl) refl (forgotten _ d.inner)
  durable_perform_refines (updates_policy id version patch) d =
      with_persist-Serves env persistence runtime fuel (updates_policy id version patch) d.signals _
        _ d (unlimited refl) refl (forgotten _ d.inner)
  durable_perform_refines (pushes id item) d =
      with_persist-Serves env persistence runtime fuel (pushes id item) d.signals _ _ d
        (unlimited refl) refl (forgotten _ d.inner)
  durable_perform_refines (fetches id limit) d =
      run_inner-Serves env persistence runtime fuel (fetches id limit) _ d refl refl
        (forgotten _ d.inner)
  durable_perform_refines (opens id addr stream) d =
      signal-Serves env persistence runtime fuel (opens id addr stream)
        (runtime.touch_presence id addr) _ d refl refl refl
  durable_perform_refines (closes id) d =
      signal-Serves env persistence runtime fuel (closes id) (runtime.clear_presence id) _ d refl
        refl refl

through :
    {env : Env} {fuel : ℕ} {w v u : World}
    → Reaches env fuel w v
    → Reaches env fuel v u
    → Reaches env fuel w u
through h stays = h
through h (calls _ c r) = calls _ c (through h r)
through h (exports _ r) = exports _ (through h r)
through h (ticks _ r) = ticks _ (through h r)

performed :
    {env : Env} {fuel : ℕ} (c : Call) {w v : World} {r : Result (Unit {0})}
    → perform env fuel c w ≡ (r, v)
    → Reaches env fuel w v
performed c {w} e = subst (Reaches _ _ w) (ap (λ p. p.1) e) (calls w c stays)

-- A call that the contract allows is one of the moves of a plain store.
module _ {R : Type 0} {runtime : RuntimeSignals R} {env : Env} {fuel : ℕ} {c : Call} {s : R}
    {w : World} where
  Serves-Reaches :
      {r : Result (Unit {0})} {u : World} → Serves runtime env fuel c s w r u → Reaches env fuel w u
  Serves-Reaches (refused h e) = subst (Reaches env fuel w) (sym e) stays
  Serves-Reaches (throws e h done failed) = performed c done
  Serves-Reaches (reads h care done went) = performed c done
  Serves-Reaches (saves v h care done went at) =
      subst (Reaches env fuel w) (sym at) (exports v (performed c done))
  Serves-Reaches (audits v h care done went at) =
      subst (Reaches env fuel w) (sym at) (ticks _ (exports v (performed c done)))
  Serves-Reaches (unsaved v e h care done went at) =
      subst (Reaches env fuel w) (sym at) (exports v (performed c done))
  Serves-Reaches (unaudited v e h care done went at) =
      subst (Reaches env fuel w) (sym at) (ticks _ (exports v (performed c done)))

module _ {P R : Type 0} (env : Env) (persistence : Persistence P) (runtime : RuntimeSignals R)
    (fuel : ℕ) where
  serve_from :
      (w : World) (cs : List Call) (d : DurableStore P R)
      → Reaches env fuel w d.inner
      → Reaches env fuel w (durable_serve env persistence runtime fuel d cs).inner
  unfolding durable_serve
  serve_from w [] d h = h
  serve_from w (c ∷ cs) d h =
      serve_from w cs (durable_perform env persistence runtime fuel c d).1
        (through h (Serves-Reaches (durable_perform_refines env persistence runtime fuel c d)))

  -- The store inside a durable store that served some calls is one that a plain store reaches from
  -- the same world by calls of its interface, exports of its snapshot and readings of the clock.
  pub durable_serve-Reaches :
      (cs : List Call) (d : DurableStore P R)
      → Reaches env fuel d.inner (durable_serve env persistence runtime fuel d cs).inner
  durable_serve-Reaches cs d = serve_from d.inner cs d stays
