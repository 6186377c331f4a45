-- ===== src/Store/Behaviour/JoinLaws.antt =====
-- Approvals of bind requests (`confirmBind` of apps/server/src/store/sharepaste-store.ts).
use sharepaste.Store.Behaviour.Notices.{Of, build_device_context-Of, notify_members-Of}
use sharepaste.Store.Keeps.Histories.{serve-Inv, boot-Inv, membership}
use sharepaste.Store.Keeps.Pairing.{confirm_bind-Safe}
use sharepaste.Store.Keeps.Joins.{FreshIds}
use sharepaste.Store.Sound.{Inv, lists, lives_in}
use sharepaste.Store.Calls.{Call, serve, boot}
use sharepaste.Prelude.{
  ℕ, ◌≡◌, String, Option, none, some, List, suc, sym, subst, arith, ap, ◌∙◌, leb, refl, true, not,
  ◌==◌, eq_refl,
}
use sharepaste.Map.{Map, get, get-set_self, get-delete_where}
use sharepaste.Types.{Device, GroupState, BindRequest}
use sharepaste.Env.{Env, now_unix}
use sharepaste.Exec.{
  World, Exec, lift, or_fail, ◌>>=◌, bind_request_expired, ok, draw, guard, not_authorized, ◌>>◌,
}
use sharepaste.Store.Common.{assert_group_capacity, cleanup_expired, drop_expired}
use sharepaste.Store.Pairing.{
  move_device, write_request, drop_request, bind_devices, rotate_key, confirm_bind,
}
use sharepaste.Store.Behaviour.Outcomes.{
  Ends, Whatever, Ends-bind, Ends-gets, Ends-lift, Ends-draw, Ends-pure, Ends-modify,
  Ends-modify_last, returned_Ends, cleanup_Ends, Ends-require_known, Ends-found,
}

abbrev pub version_of : Option GroupState → ℕ
version_of none = 0
version_of (some s) = s.group_key_version

module _ (env : Env) (k : String) (requester : Device) (g : String) (v : ℕ) where
  -- The requester is in the group `g`, at some time, and the key of `g` has the version `v`.
  abbrev Joined : Map Device → Map GroupState → Type 0
  Joined devices groups =
      ((t : ℕ) × (get k devices ≡ some (record requester { group_id = g; last_seen_unix = t })))
      × (version_of (get g groups) ≡ v)

  abbrev Moved : World → Type 0
  Moved w =
      (t : ℕ) × (get k w.devices ≡ some (record requester { group_id = g; last_seen_unix = t }))

  move_device-Moved :
      (w : World) (groups : Map GroupState)
      → w.groups ≡ groups
      → Ends (λ w'. Moved w' × (w'.groups ≡ groups)) Whatever (move_device env k requester g w)
  unfolding move_device
  move_device-Moved w groups same = Ends-modify _ _ w (
      Ends-draw _ _ _
        (Ends-modify_last _ _ ((now_unix env w.draws, get-set_self k _ w.devices), same)))

  rotate_key-Joined :
      (w : World) (group : GroupState)
      → get g w.groups ≡ some group
      → suc group.group_key_version ≡ v
      → Moved w
      → Ends (Of env Joined) Whatever (rotate_key env g w)
  unfolding rotate_key
  rotate_key-Joined w group there next moved = Ends-gets _ _ w (
      Ends-found _ _ _ w group there (
        Ends-draw _ _ w (
          Ends-modify _ _ _
            (Ends-pure _ _ (moved, rw (get-set_self g _ w.groups) (omega (arith, next)))))))

capacity_unchanged :
    (g : String) (w : World) → Ends (λ w1. w1 ≡ w) Whatever (assert_group_capacity g w)
unfolding assert_group_capacity
capacity_unchanged g w = returned_Ends _ refl

module _ (env : Env) (request : BindRequest) (issuer requester : Device) (group : GroupState) where
  abbrev Bound : Map Device → Map GroupState → Type 0
  Bound =
      Joined env request.requester_device_id requester issuer.group_id (suc group.group_key_version)

  -- Once the device has moved and the key is new, the rest changes neither.
  bind_devices-Bound :
      (id : String) (w : World)
      → get request.issuer_device_id w.devices ≡ some issuer
      → get request.requester_device_id w.devices ≡ some requester
      → get issuer.group_id w.groups ≡ some group
      → Ends (Of env Bound) Whatever (bind_devices env id request w)
  unfolding bind_devices write_request drop_request
  bind_devices-Bound id w known_issuer known there = Ends-require_known _ _ w issuer known_issuer (
      Ends-require_known _ _ w requester known (
        Ends-bind _ (λ w1. w1 ≡ w) _ w (capacity_unchanged issuer.group_id w)
          λ _ w1 same1.
            Ends-bind _
              (λ w2.
                Moved env request.requester_device_id requester issuer.group_id
                  (suc group.group_key_version) w2
                × (w2.groups ≡ w.groups))
              _ w1
              (move_device-Moved env _ requester issuer.group_id (suc group.group_key_version) w1
                w.groups (ap (λ x. x.groups) same1))
              λ _ w2 h2.
                Ends-bind _ (Of env Bound) _ w2
                  (rotate_key-Joined env _ requester _ _ w2 group
                    (ap (get issuer.group_id) h2.1 ∙ there) refl h2.0)
                  λ rotated w3 h3. Ends-modify _ _ w3 (
                    Ends-bind _ (Of env Bound) _ _ (build_device_context-Of env Bound issuer _ h3)
                      λ context w4 h4. Ends-modify _ _ w4 (
                        Ends-gets _ _ _ (
                          Ends-bind _ (Of env Bound) _ _ (notify_members-Of env Bound _ _ h4)
                            λ _ w5 h5. Ends-modify _ _ w5 (Ends-pure _ _ h5))))))

module _ (env : Env) (request : BindRequest) (issuer requester : Device) (group : GroupState) where
  abbrev Approved : World → Type 0
  Approved = Of env (Bound env request issuer requester group)

  -- After the clean-up the request is the same, if it is still there.
  kept_request :
      (id : String) (w : World) (r : BindRequest)
      → get id w.bind_requests ≡ some request
      → or_fail (get id (cleanup_expired env w).1.bind_requests) bind_request_expired ≡ ok r
      → r ≡ request
  unfolding cleanup_expired drop_expired ◌>>=◌ or_fail
  kept_request id w r known e = ground (
    arith,
    get-delete_where (λ q. leb q.expires_at_unix (now_unix env w.draws)) id w.bind_requests,
    known,
    e,
  )

  abbrev Cleaned : String → World → World → Type 0
  Cleaned id w w1 =
      (w1.devices ≡ w.devices)
      × (w1.groups ≡ w.groups)
      × ((r : BindRequest)
          → or_fail (get id w1.bind_requests) bind_request_expired ≡ ok r
          → r ≡ request)

  cleanup-Cleaned :
      (id : String) (w : World)
      → get id w.bind_requests ≡ some request
      → Ends (Cleaned id w) Whatever (cleanup_expired env w)
  unfolding cleanup_expired drop_expired ◌>>=◌
  cleanup-Cleaned id w known = cleanup_Ends env w (refl, refl, λ r e. kept_request id w r known e)

  -- `confirmBind` from the request that it found.
  abbrev approves : String → String → BindRequest → Exec BindRequest
  approves id issuer_id found = do
    now ← draw (now_unix env)
    lift (guard bind_request_expired (not (leb found.expires_at_unix now)))
    lift (guard not_authorized (found.issuer_device_id == issuer_id))
    let answered : BindRequest = record found { approved = some true }
    write_request id answered
    bind_devices env id answered

  confirm_bind-Approved :
      (id issuer_id : String) (w : World)
      → get id w.bind_requests ≡ some request
      → get request.issuer_device_id w.devices ≡ some issuer
      → get request.requester_device_id w.devices ≡ some requester
      → get issuer.group_id w.groups ≡ some group
      → Ends Approved Whatever (confirm_bind env id issuer_id true w)
  unfolding confirm_bind write_request
  confirm_bind-Approved id issuer_id w stored known_issuer known there =
      Ends-bind _ (Cleaned id w) _ w (cleanup-Cleaned id w stored) λ _ w1 c. Ends-gets _ _ w1 (
        Ends-lift (approves id issuer_id) _ w1 tt λ r e.
          subst (λ x. Ends Approved Whatever (approves id issuer_id x w1)) (sym (c.2 r e))
            (Ends-draw _ _ w1 (
              Ends-lift _ _ _ tt λ _ _. Ends-lift _ _ _ tt λ _ _. Ends-modify _ _ _ (
                bind_devices-Bound env (record request { approved = some true }) issuer requester
                  group id _ (ap (get request.issuer_device_id) c.0 ∙ known_issuer)
                  (ap (get request.requester_device_id) c.0 ∙ known)
                  (ap (get issuer.group_id) c.1 ∙ there)))))

-- After any calls on a new store, an approval that returns has moved the requester: it is an active
-- device of the issuer's group, that group lists it and no other group does, and the key of the
-- group has the next version. Premises: the request, both devices and the group were stored;
-- `nanoid` makes no identifier twice.
pub confirm_bind_joins :
    {env : Env}
    → FreshIds env
    → (fuel : ℕ) (calls : List Call)
    → let w = serve env fuel boot calls in
      (id issuer_id : String) (request : BindRequest) (issuer requester : Device)
      (group : GroupState)
      → get id w.bind_requests ≡ some request
      → get request.issuer_device_id w.devices ≡ some issuer
      → get request.requester_device_id w.devices ≡ some requester
      → requester.active ≡ true
      → get issuer.group_id w.groups ≡ some group
      → (r : BindRequest) (w1 : World) → confirm_bind env id issuer_id true w ≡ (ok r, w1)
      → (lives_in issuer.group_id (get request.requester_device_id w1.devices) ≡ true)
        × ((g : String)
            → lists request.requester_device_id (get g w1.group_devices) ≡ (issuer.group_id == g))
        × (version_of (get issuer.group_id w1.groups) ≡ suc group.group_key_version)
confirm_bind_joins {env} ids fuel calls id issuer_id request issuer requester group stored
      known_issuer known active there r w1 e =
    let w = serve env fuel boot calls in
    let v = serve-Inv ids fuel boot calls (boot-Inv env) in
    let h = subst (Ends (Approved env request issuer requester group) Whatever) e (
      confirm_bind-Approved env request issuer requester group id issuer_id w stored known_issuer
        known there) in
    let v1 : Inv env w1 =
      subst (λ x. Inv env x.1) e (confirm_bind-Safe w v id issuer_id true).sound in
    let (t, moved) = h.ended.0 in
    (
      rw (moved, active, eq_refl issuer.group_id) refl,
      λ g. membership w1 v1 request.requester_device_id g _ moved ∙ rw active refl,
      h.ended.1,
    )
