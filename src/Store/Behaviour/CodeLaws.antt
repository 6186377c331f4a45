-- ===== src/Store/Behaviour/CodeLaws.antt =====
-- Requests for a bind code (`requestBind` of apps/server/src/store/sharepaste-store.ts).
use sharepaste.Prelude.{
  refl, List, [], ◌∷◌, ℕ, ◌-◌, ◌≤◌, ◌<◌, ◌≡◌, String, Option, none, some, arith, eq_refl, leb, ◌||◌,
  suc,
}
use sharepaste.Map.{get, get-set_self, get-delete, delete, get-delete_where}
use sharepaste.Store.Behaviour.Outcomes.{
  Ends, Ends-lift, Ends-bind, Ends-choose, Ends-raise, Ends-pure, Ends-modify, Ends-modify_last,
  Ends-draw, Ends-emit, Ends-require, Ends-gets, cleanup_Ends,
}
use sharepaste.Types.{PresenceState, BindCode, BindRequest, Device}
use sharepaste.Env.{Env, now_unix}
use sharepaste.Exec.{World, ok, Result, ◌>>=◌, or_fail, bind_code_expired, err}
use sharepaste.Store.Common.{cleanup_expired, drop_expired}
use sharepaste.Store.Pairing.{use_attempt, notify_issuer, request_bind}

-- The attempts that a code has left.
abbrev pub attempts : Option BindCode → ℕ
attempts none = 0
attempts (some b) = b.attempts_left

abbrev attempts_in : String → World → ℕ
attempts_in code w = attempts (get code w.bind_codes)

-- What may hold of the attempts once `n` were left: fewer if a value is returned.
abbrev Spends : {A : Type 0} → String → ℕ → Result A × World → Type 0
Spends code n = Ends (λ w. attempts_in code w < n) (λ w. attempts_in code w ≤ n)

cleanup-attempts :
    (env : Env) (code : String) (w : World)
    → attempts_in code (cleanup_expired env w).1 ≤ attempts_in code w
unfolding cleanup_expired drop_expired ◌>>=◌
cleanup-attempts env code w = ground (
  arith,
  get-delete_where (λ c. leb c.expires_at_unix (now_unix env w.draws) || leb c.attempts_left 0) code
      w.bind_codes,
)

found_attempts :
    (o : Option BindCode) (b : BindCode)
    → or_fail o bind_code_expired ≡ ok b
    → attempts o ≡ b.attempts_left
unfolding or_fail
found_attempts none b e = cc
found_attempts (some x) b e = ground arith

module _ (env : Env) (code : String) (n : ℕ) where
  cleanup-fine :
      (w : World)
      → attempts_in code w ≤ n
      → Ends (λ v. attempts_in code v ≤ n) (λ v. attempts_in code v ≤ n) (cleanup_expired env w)
  cleanup-fine w h = cleanup_Ends env w (ground (arith, cleanup-attempts env code w))

  use_attempt-Spends :
      (b : BindCode) (w : World)
      → or_fail (get code w.bind_codes) bind_code_expired ≡ ok b
      → attempts_in code w ≤ n
      → Spends code n (use_attempt code b w)
  unfolding use_attempt
  use_attempt-Spends b w e h =
      let spent : BindCode = record b { attempts_left = b.attempts_left - 1 } in
      Ends-choose (leb b.attempts_left 0) _ _ w
        (λ _. Ends-modify _ _ w (
          Ends-raise _
            (record w { store = record w.store { bind_codes = delete code w.bind_codes } })
            (ground (arith, get-delete code code w.bind_codes, eq_refl code))))
        (λ p. Ends-modify_last _ w (
          ground (
            arith,
            found_attempts (get code w.bind_codes) b e,
            get-set_self code spent w.bind_codes,
          )))

  notify-Spends :
      (o : Option PresenceState) (r : BindRequest) (d : Device) (w : World)
      → attempts_in code w < n
      → Spends code n (notify_issuer env o r d w)
  unfolding notify_issuer
  notify-Spends none r d w h = Ends-pure _ w h
  notify-Spends (some p) r d w h = Ends-draw _ _ w (Ends-emit _ _ _ h)

  request_bind-Spends :
      (id : String) (w : World)
      → attempts_in code w ≡ n
      → Spends code n (request_bind env code id w)
  unfolding request_bind
  request_bind-Spends id w e =
      Ends-bind _ (λ v. attempts_in code v ≤ n) (cleanup_expired env) w
        (cleanup-fine w (ground arith))
        λ _ w1 fine. Ends-require _ id w1 fine λ requester _. Ends-gets _ _ w1 (
          Ends-lift _ _ w1 fine λ b found. Ends-draw _ _ w1 (
            Ends-lift _ _ _ fine λ _ _.
              Ends-bind _ (λ v. attempts_in code v < n) _ _ (use_attempt-Spends b _ found fine)
                λ _ w3 low. Ends-require _ b.issuer_device_id w3 (ground (arith, low)) λ issuer _.
                  Ends-lift _ _ w3 (ground (arith, low)) λ _ _. Ends-draw _ _ w3 (
                    Ends-modify _ _ _ (
                      Ends-gets _ _ _ (
                        Ends-bind _ (λ v. attempts_in code v < n) _ _
                          (notify-Spends _ _ requester _ low) λ _ w4 low'. Ends-pure _ w4 low')))))

-- The requests for a code that return, of those that the devices send one after the other.
unfoldable pub granted : Env → String → List String → World → ℕ
granted env code [] w = 0
granted env code (id ∷ ids) w =
    let (answer, w1) = request_bind env code id w in
    let rest = granted env code ids w1 in elim answer [ ok request ↦ suc rest | err e ↦ rest ]

granted-step :
    (answer : Result BindRequest) (code : String) (w1 : World) (n rest : ℕ)
    → Spends code n (answer, w1)
    → rest ≤ attempts_in code w1
    → (elim answer [ ok request ↦ suc rest | err e ↦ rest ]) ≤ n
granted-step (ok r) code w1 n rest s h = omega (arith, s.ended)
granted-step (err e) code w1 n rest s h = omega (arith, s.ended)

-- However many requests come in for a code, it serves at most as many of them as it has attempts
-- left, and one that is not stored serves none.
pub granted-le :
    (env : Env) (code : String) (ids : List String) (w : World)
    → granted env code ids w ≤ attempts (get code w.bind_codes)
unfolding granted
granted-le env code [] w = omega arith
granted-le env code (id ∷ ids) w =
    let r = request_bind env code id w in
    granted-step r.0 code r.1 _ _ (request_bind-Spends env code _ id w refl)
      (granted-le env code ids r.1)
