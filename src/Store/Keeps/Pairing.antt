-- ===== src/Store/Keeps/Pairing.antt =====
-- The calls that bind devices are safe.
use sharepaste.Prelude.{
  ℕ, zero, suc, ◌≡◌, refl, String, Bool, true, List, [], ◌∷◌, Option, none, some, ◌<◌, Bool-cases,
  leb, inl, inr,
}
use sharepaste.Map.{get, has, get-set_self}
use sharepaste.Types.{Device, BindCode, BindRequest, PresenceState}
use sharepaste.Env.{Env, generate_bind_code}
use sharepaste.Exec.{World}
use sharepaste.Store.Common.{count_of, max_devices_per_group}
use sharepaste.Store.Pairing.{
  unused_code, create_bind_code, use_attempt, notify_issuer, request_bind, notify_member,
  notify_members, write_request, drop_request, move_device, rotate_key, bind_devices, confirm_bind,
}
use sharepaste.Store.Sound.{Inv}
use sharepaste.Store.Keeps.Steps.{Sound-draw, Sound-group}
use sharepaste.Store.Keeps.Joins.{Sound-move}
use sharepaste.Store.Keeps.Common.{
  cleanup_expired-Safe, build_device_context-Safe, build_group_key_update-Safe,
}
use sharepaste.Store.Keeps.Rules.{
  Safe, Safe-emit, Yields, Yields-pure, Yields-raise, Yields-write, Yields-bind, Yields-if,
  Yields-require, Yields-gets, Yields-draw, Yields-demand, Yields-or_fail, Yields-guard,
  Yields-capacity, Yields-modify,
}

unused_code-Safe :
    {env : Env} (fuel : ℕ) (w : World) → Inv env w → Safe env (unused_code env fuel w)
unfolding unused_code
unused_code-Safe zero w v = Yields-raise _ w v refl
unused_code-Safe {env} (suc fuel) w v = Yields-draw _ _ w (
    Yields-gets _ _ _ (elim (Bool-cases (has (generate_bind_code env w.draws) w.bind_codes)) [
      | inl taken ↦ rw taken (unused_code-Safe fuel _ (Sound-draw v))
      | inr unused ↦ rw unused (Yields-pure _ _ (Sound-draw v) tt)
    ]))

module _ {env : Env} (w : World) (v : Inv env w) where
  use_attempt-Safe : (code : String) (c : BindCode) → Safe env (use_attempt code c w)
  unfolding use_attempt
  use_attempt-Safe code c =
      Yields-if (leb c.attempts_left 0) _ _ w (λ _. Yields-modify _ _ w (Yields-raise _ _ v refl))
        (λ _. Yields-write _ w v tt)

  notify_issuer-Safe :
      (p : Option PresenceState) (r : BindRequest) (d : Device)
      → Safe env (notify_issuer env p r d w)
  unfolding notify_issuer
  notify_issuer-Safe none r d = Yields-pure _ w v tt
  notify_issuer-Safe (some p) r d = Yields-draw _ _ w (Safe-emit _ _ _ (Sound-draw v))

  notify_member-Safe :
      (p : Option PresenceState) (m : Option Device)
      → ((d : Device) → m ≡ some d → has d.group_id w.groups ≡ true)
      → Safe env (notify_member env p m w)
  unfolding notify_member
  notify_member-Safe none m h = Yields-pure _ w v tt
  notify_member-Safe (some p) none h = Yields-pure _ w v tt
  notify_member-Safe (some p) (some d) h =
      Yields-if d.active _ _ w
        (λ _.
          Yields-bind _ _ w (build_group_key_update-Safe w v d (h d refl))
            λ update w' v' _. Safe-emit _ _ w' v')
        (λ _. Yields-pure _ w v tt)

module _ {env : Env} (w : World) (v : Inv env w) where
  pub create_bind_code-Safe : (fuel : ℕ) (id : String) → Safe env (create_bind_code env fuel id w)
  unfolding create_bind_code
  create_bind_code-Safe fuel id = Yields-require _ id w v λ d e a.
      Yields-bind _ _ w (cleanup_expired-Safe w v) λ _ w' v' _.
        Yields-bind _ _ w' (unused_code-Safe fuel w' v') λ code w'' v'' _.
          Yields-draw _ _ w'' (Yields-modify _ _ _ (Yields-pure _ _ (Sound-draw v'') tt))

  pub request_bind-Safe : (code id : String) → Safe env (request_bind env code id w)
  unfolding request_bind
  request_bind-Safe code id = Yields-bind _ _ w (cleanup_expired-Safe w v) λ _ w1 v1 _.
      Yields-require _ id w1 v1 λ d e a. Yields-gets _ _ w1 (
        Yields-or_fail _ _ _ w1 v1 refl λ c found. Yields-draw _ _ w1 (
          Yields-guard _ _ _ _ (Sound-draw v1) refl λ _.
            Yields-bind _ _ _ (use_attempt-Safe _ (Sound-draw v1) code c) λ _ w2 v2 _.
              Yields-require _ _ w2 v2 λ d' e' a'. Yields-guard _ _ _ w2 v2 refl λ _.
                Yields-draw _ _ w2 (
                  Yields-modify _ _ _ (
                    Yields-gets _ _ _ (
                      Yields-bind _ _ _ (notify_issuer-Safe _ (Sound-draw v2) _ _ d)
                        λ _ w3 v3 _. Yields-pure _ w3 v3 tt)))))

notify_members-Safe :
    {env : Env} (ids : List String) (w : World) → Inv env w → Safe env (notify_members env ids w)
unfolding notify_members
notify_members-Safe [] w v = Yields-pure _ w v tt
notify_members-Safe (id ∷ ids) w v = Yields-gets _ _ w (
    Yields-gets _ _ w (
      Yields-bind _ _ w (notify_member-Safe w v _ _ (v.device_group id))
        λ _ w' v' _. notify_members-Safe ids w' v'))

-- The group is there.
abbrev HasGroup : String → {A : Type 0} → A → World → Type 0
HasGroup g a w = has g w.groups ≡ true

module _ {env : Env} (w : World) (v : Inv env w) where
  move_device-HasGroup :
      (k g : String) (d : Device)
      → get k w.devices ≡ some d
      → d.active ≡ true
      → has g w.groups ≡ true
      → count_of (get g w.group_devices) < max_devices_per_group
      → Yields env (HasGroup g) (move_device env k d g w)
  unfolding move_device
  move_device-HasGroup k g d e a there room = Yields-modify _ _ w (
      Yields-draw _ _ _
        (Yields-write _ _ (Sound-move (Sound-draw v) k g d _ e refl refl a there room) there))

  rotate_key-HasGroup :
      (g : String) → has g w.groups ≡ true → Yields env (HasGroup g) (rotate_key env g w)
  unfolding rotate_key
  rotate_key-HasGroup g there = Yields-gets _ _ w (
      Yields-demand _ _ w there λ group e. Yields-draw _ _ w (
        Yields-modify _ _ _ (
          Yields-pure _ _ (Sound-group (Sound-draw v) g _ there (v.group_key g group e))
            (rw get-set_self refl))))

module _ {env : Env} (w : World) (v : Inv env w) where
  bind_devices-Safe : (id : String) (r : BindRequest) → Safe env (bind_devices env id r w)
  unfolding bind_devices write_request drop_request
  bind_devices-Safe id r = Yields-require _ _ w v λ issuer ei ai.
      Yields-require _ _ w v λ requester er ar. Yields-capacity _ _ w v λ room.
        Yields-bind _ _ w
          (move_device-HasGroup w v _ _ requester er ar (v.device_group _ issuer ei) room)
          λ _ w1 v1 there.
            Yields-bind _ _ w1 (rotate_key-HasGroup w1 v1 _ there) λ group w2 v2 there'.
              Yields-modify _ _ w2 (
                Yields-bind _ _ _ (build_device_context-Safe _ v2 issuer there') λ context w3 v3 _.
                  Yields-modify _ _ w3 (
                    Yields-gets _ _ _ (
                      Yields-bind _ _ _ (notify_members-Safe _ _ v3)
                        λ _ w4 v4 _. Yields-modify _ _ w4 (Yields-pure _ _ v4 tt))))

module _ {env : Env} (w : World) (v : Inv env w) where
  pub confirm_bind-Safe :
      (id issuer : String) (approve : Bool) → Safe env (confirm_bind env id issuer approve w)
  unfolding confirm_bind write_request drop_request
  confirm_bind-Safe id issuer approve = Yields-bind _ _ w (cleanup_expired-Safe w v) λ _ w1 v1 _.
      Yields-gets _ _ w1 (
        Yields-or_fail _ _ _ w1 v1 refl λ r e. Yields-draw _ _ w1 (
          Yields-guard _ _ _ _ (Sound-draw v1) refl λ _.
            Yields-guard _ _ _ _ (Sound-draw v1) refl λ _. Yields-modify _ _ _ (
              Yields-if approve _ _ _ (λ _. bind_devices-Safe _ (Sound-draw v1) id _)
                (λ _. Yields-modify _ _ _ (Yields-pure _ _ (Sound-draw v1) tt)))))
