-- ===== src/Store/Behaviour/RequestLaws.antt =====
-- Answers to bind requests (`confirmBind` of apps/server/src/store/sharepaste-store.ts).
use sharepaste.Prelude.{◌≡◌, String, Bool, true, false, none, arith, eq_refl, leb, subst}
use sharepaste.Map.{get, get-delete, get-delete_where}
use sharepaste.Types.{BindRequest}
use sharepaste.Env.{Env, now_unix}
use sharepaste.Exec.{World, ok, err, Result, bind_request_expired, ◌>>=◌}
use sharepaste.Store.Common.{cleanup_expired, drop_expired}
use sharepaste.Store.Pairing.{confirm_bind, bind_devices, drop_request}
use sharepaste.Store.Behaviour.Outcomes.{
  Ends, Whatever, Ends-any, Ends-bind, Ends-gets, Ends-lift, Ends-draw, Ends-choose, Ends-pure,
  Ends-require, Ends-modify_last,
}

abbrev Dropped : String → World → Type 0
Dropped id w = get id w.bind_requests ≡ none

drop_request-Drops : (id : String) (w : World) → Ends (Dropped id) Whatever (drop_request id w)
unfolding drop_request
drop_request-Drops id w =
    Ends-modify_last _ w (ground (arith, get-delete id id w.bind_requests, eq_refl id))

bind_devices-Drops :
    (env : Env) (id : String) (request : BindRequest) (w : World)
    → Ends (Dropped id) Whatever (bind_devices env id request w)
unfolding bind_devices
bind_devices-Drops env id request w = Ends-require _ _ w tt λ issuer _.
    Ends-require _ _ w tt λ requester _. Ends-bind _ Whatever _ w (Ends-any _) λ _ w1 _.
      Ends-bind _ Whatever _ w1 (Ends-any _) λ _ w2 _.
        Ends-bind _ Whatever _ w2 (Ends-any _) λ group w3 _.
          Ends-bind _ Whatever _ w3 (Ends-any _) λ _ w4 _.
            Ends-bind _ Whatever _ w4 (Ends-any _) λ context w5 _.
              Ends-bind _ Whatever _ w5 (Ends-any _) λ _ w6 _. Ends-gets _ _ w6 (
                Ends-bind _ Whatever _ w6 (Ends-any _) λ _ w7 _.
                  Ends-bind _ (Dropped id) _ w7 (drop_request-Drops id w7)
                    λ _ w8 gone. Ends-pure _ w8 gone)

-- A request that was answered is stored no more.
confirm_bind-Drops :
    (env : Env) (id issuer : String) (approve : Bool) (w : World)
    → Ends (Dropped id) Whatever (confirm_bind env id issuer approve w)
unfolding confirm_bind
confirm_bind-Drops env id issuer approve w = Ends-bind _ Whatever _ w (Ends-any _) λ _ w1 _.
    Ends-gets _ _ w1 (
      Ends-lift _ _ w1 tt λ request _. Ends-draw _ _ w1 (
        Ends-lift _ _ _ tt λ _ _. Ends-lift _ _ _ tt λ _ _.
          Ends-bind _ Whatever _ _ (Ends-any _) λ _ w2 _.
            Ends-choose approve _ _ w2 (λ _. bind_devices-Drops env id _ w2)
              (λ _.
                Ends-bind _ (Dropped id) _ w2 (drop_request-Drops id w2)
                  λ _ w3 gone. Ends-pure _ w3 gone)))

-- A request that is not stored is not answered.
confirm_bind-unknown :
    (env : Env) (id issuer : String) (approve : Bool) (w : World)
    → get id w.bind_requests ≡ none
    → (confirm_bind env id issuer approve w).0 ≡ err bind_request_expired
unfolding confirm_bind cleanup_expired drop_expired ◌>>=◌
confirm_bind-unknown env id issuer approve w h =
    ground (
      arith,
      get-delete_where (λ r. leb r.expires_at_unix (now_unix env w.draws)) id w.bind_requests,
    )

abbrev answers : Result BindRequest → Bool
answers (ok r) = true
answers (err e) = false

-- A bind request is answered once: after an approval or a rejection that returned, every further
-- answer to it fails with `BIND_REQUEST_EXPIRED`, whoever gives it.
pub confirm_bind_once :
    (env : Env) (id issuer : String) (approve : Bool) (w : World) (r : BindRequest) (w1 : World)
    → confirm_bind env id issuer approve w ≡ (ok r, w1)
    → (other : String) (again : Bool)
    → (confirm_bind env id other again w1).0 ≡ err bind_request_expired
confirm_bind_once env id issuer approve w r w1 e other again =
    confirm_bind-unknown env id other again w1
      (subst (Ends (Dropped id) Whatever) e (confirm_bind-Drops env id issuer approve w)).ended
