-- ===== src/Store/Behaviour/CodeSearch.antt =====
-- The search for an unused bind code (`createBindCode` of apps/server/src/store/
-- sharepaste-store.ts).
use sharepaste.Prelude.{
  ◌≡◌, refl, ℕ, zero, suc, ◌+◌, ◌≤◌, ◌<◌, String, Bool, true, false, some, arith, subst,
}
use sharepaste.Map.{get, has, get-set_self}
use sharepaste.Types.{BindCode, Device}
use sharepaste.Env.{Env, now_unix, generate_bind_code}
use sharepaste.Exec.{World, ok, ◌>>=◌}
use sharepaste.Store.Common.{
  cleanup_expired, require_device, find_device, bind_ttl_seconds, max_bind_attempts,
}
use sharepaste.Store.Pairing.{unused_code, create_bind_code}

module _ (env : Env) where
  -- Some draw gave a code that is not in use, and the search ended with it.
  abbrev Found : ℕ → World → Type 0
  Found fuel w =
      (m : ℕ) × (unused_code env fuel w
        ≡ (ok (generate_bind_code env m), record w { draws = suc m }))
      × (has (generate_bind_code env m) w.bind_codes ≡ false)

  searched :
      (fuel : ℕ) (w : World) (taken : Bool)
      → has (generate_bind_code env w.draws) w.bind_codes ≡ taken
      → (taken ≡ true → Found fuel (record w { draws = suc w.draws }))
      → Found (suc fuel) w
  unfolding unused_code ◌>>=◌
  searched fuel w false e later = (w.draws, rw e refl, e)
  searched fuel w true e later = let (m, found, unused) = later refl in (m, rw e found, unused)

  unused_code-Found :
      (fuel : ℕ) (w : World) (k : ℕ)
      → w.draws ≤ k
      → k < w.draws + fuel
      → has (generate_bind_code env k) w.bind_codes ≡ false
      → Found fuel w
  unused_code-Found zero w k low high free = absurd (omega arith)
  unused_code-Found (suc fuel) w k low high free = searched fuel w _ refl λ e.
      let differs : ¬ (k ≡ w.draws) = λ q.
        let free_now = subst (λ n. has (generate_bind_code env n) w.bind_codes ≡ false) q free in
        cc in
      unused_code-Found fuel (record w { draws = suc w.draws }) k (omega arith) (omega arith) free

  -- For a device that the server knows, the search for a code ends and the call returns, if after
  -- the clean-up one of the next `fuel` draws gives a code that is not in use: the code that is
  -- returned was not in use, and it is stored.
  pub create_bind_code_returns :
      (fuel : ℕ) (id : String) (issuer : Device) (w : World) (k : ℕ)
      → find_device id w.devices ≡ ok issuer
      → let cleaned = (cleanup_expired env w).1 in
        cleaned.draws ≤ k
        → k < cleaned.draws + fuel
        → has (generate_bind_code env k) cleaned.bind_codes ≡ false
        → (code : BindCode) × ((create_bind_code env fuel id w).0 ≡ ok code)
          × (has code.code cleaned.bind_codes ≡ false)
          × (get code.code (create_bind_code env fuel id w).1.bind_codes ≡ some code)
  unfolding create_bind_code require_device cleanup_expired ◌>>=◌
  create_bind_code_returns fuel id issuer w k known low high free =
      let (m, found, unused) = unused_code-Found fuel (cleanup_expired env w).1 k low high free in
      let code : BindCode = record {
        code = generate_bind_code env m;
        issuer_device_id = issuer.device_id;
        expires_at_unix = now_unix env (suc m) + bind_ttl_seconds;
        attempts_left = max_bind_attempts;
      } in
      (
        code,
        rw (known, found) refl,
        unused,
        rw (known, found) (get-set_self code.code code (cleanup_expired env w).1.bind_codes),
      )
