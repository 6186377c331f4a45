-- ===== src/Store/Keeps/Devices.antt =====
-- The calls on devices are safe.
use sharepaste.Prelude.{
  ◌≡◌, ◌<◌, refl, true, String, List, [], ◌∷◌, is_some, arith, ◌&&◌, eq_refl, suc, includes,
}
use sharepaste.Map.{Map, get, has, size-empty, get-set_self, includes-keys}
use sharepaste.Types.{Device, RegisterDeviceInput}
use sharepaste.Env.{Env, make_device_id, now_unix}
use sharepaste.Exec.{World}
use sharepaste.Store.Common.{count_of, max_devices_per_group, truthy}
use sharepaste.Store.Devices.{
  Choice, join_group, create_group, enroll, register_device, recover_group, get_device_context,
  list_devices, rename_device, remove_device, devices_of, new_device,
}
use sharepaste.Store.Sound.{Inv}
use sharepaste.Store.Keeps.Steps.{Sound-draw, Sound-touch}
use sharepaste.Store.Keeps.Joins.{FreshIds, Sound-create, Sound-enroll, Sound-remove}
use sharepaste.Store.Keeps.Common.{cleanup_expired-Safe, build_device_context-Safe}
use sharepaste.Store.Keeps.Rules.{
  Safe, Yields, Yields-pure, Yields-bind, Yields-if, Yields-require, Yields-gets, Yields-draw,
  Yields-demand, Yields-or_fail, Yields-guard, Yields-capacity, Yields-modify,
}

-- The group that was chosen is there and has room.
abbrev HasRoom : Choice → World → Type 0
HasRoom choice w =
    (has choice.group_id w.groups ≡ true)
    × (count_of (get choice.group_id w.group_devices) < max_devices_per_group)

module _ {env : Env} (w : World) (v : Inv env w) where
  pub join_group-HasRoom :
      (input : RegisterDeviceInput) → Yields env HasRoom (join_group env input w)
  unfolding join_group
  join_group-HasRoom input = Yields-gets _ _ w (
      Yields-or_fail _ _ _ w v refl λ group g. Yields-guard _ _ _ w v refl λ _.
        Yields-capacity _ _ w v
          λ room. Yields-pure _ w v (ground (arith, v.group_key _ group g), room))

  pub get_device_context-Safe : (id : String) → Safe env (get_device_context env id w)
  unfolding get_device_context
  get_device_context-Safe id = Yields-bind _ _ w (cleanup_expired-Safe w v) λ _ w' v' _.
      Yields-require _ id w' v' λ d e a. Yields-draw _ _ w' (
        Yields-modify _ _ _ (
          build_device_context-Safe _ (Sound-touch (Sound-draw v') id d _ e refl refl refl) _
            (v'.device_group id d e)))

  pub rename_device-Safe : (id name : String) → Safe env (rename_device env id name w)
  unfolding rename_device
  rename_device-Safe id name = Yields-require _ id w v λ d e a. Yields-draw _ _ w (
      Yields-modify _ _ _ (Yields-pure _ _ (Sound-touch (Sound-draw v) id d _ e refl refl refl) tt))

  pub remove_device-Safe : (id target : String) → Safe env (remove_device env id target w)
  unfolding remove_device
  remove_device-Safe id target = Yields-require _ id w v λ d e a.
      Yields-require _ target w v λ d' e' a'. Yields-guard _ _ _ w v refl λ _. Yields-draw _ _ w (
        Yields-modify _ _ _
          (Yields-pure _ _ (Sound-remove (Sound-draw v) target d' _ e' refl refl refl) tt))

module _ {env : Env} (ids : FreshIds env) (w : World) (v : Inv env w) where
  pub create_group-HasRoom : Yields env HasRoom (create_group env w)
  unfolding create_group
  create_group-HasRoom = Yields-draw _ _ _ (
      Yields-draw _ _ _ (
        Yields-draw _ _ _ (
          Yields-draw _ _ _ (
            Yields-draw _ _ _ (
              Yields-modify _ _ _ (
                Yields-pure _ _
                  (Sound-create (Sound-draw (Sound-draw (Sound-draw (Sound-draw (Sound-draw v)))))
                    ids _ _ w.draws refl (omega arith) (v.fresh_group w.draws (omega arith)) refl)
                  (rw get-set_self refl, rw get-set_self (rw size-empty (omega arith)))))))))

  pub enroll-Safe :
      (input : RegisterDeviceInput) (choice : Choice)
      → HasRoom choice w
      → Safe env (enroll env input choice w)
  unfolding enroll
  enroll-Safe input choice (there, room) = Yields-draw _ _ _ (
      Yields-draw _ _ _ (
        Yields-modify _ _ _ (
          Yields-gets _ _ _ (
            Yields-demand _ _ _ (v.group_members choice.group_id there) λ ms m.
              let joined =
                Sound-enroll (Sound-draw (Sound-draw v)) ids (make_device_id env w.draws)
                  (new_device input choice (make_device_id env w.draws)
                    (now_unix env (suc w.draws)))
                  ms w.draws refl (omega arith) (v.fresh_device w.draws (omega arith)) refl refl
                  there m (ground (arith, m)) in
              Yields-modify _ _ _ (
                Yields-gets _ _ _ (
                  Yields-demand _ _ _ there λ group g. Yields-draw _ _ _ (
                    Yields-or_fail _ _ _ _ (Sound-draw joined) refl
                      λ key e. Yields-pure _ _ (Sound-draw joined) tt)))))))

module _ {env : Env} (ids : FreshIds env) (w : World) (v : Inv env w) where
  pub register_device-Safe : (input : RegisterDeviceInput) → Safe env (register_device env input w)
  unfolding register_device
  register_device-Safe input = Yields-bind _ _ w (cleanup_expired-Safe w v) λ _ w' v' _.
      Yields-bind _ _ w'
        (Yields-if (truthy input.group_id && truthy input.recovery_phrase) _ _ w'
          (λ _. join_group-HasRoom w' v' input) (λ _. create_group-HasRoom ids w' v'))
        λ choice w'' v'' room. enroll-Safe ids w'' v'' input choice room

module _ {env : Env} (ids : FreshIds env) (w : World) (v : Inv env w) where
  pub recover_group-Safe :
      (name platform pubkey phrase : String)
      → Safe env (recover_group env name platform pubkey phrase w)
  unfolding recover_group
  recover_group-Safe name platform pubkey phrase =
      Yields-bind _ _ w (cleanup_expired-Safe w v) λ _ w' v' _. Yields-gets _ _ w' (
        Yields-or_fail _ _ _ w' v' refl
          λ group g. Yields-capacity _ _ w' v' λ room. register_device-Safe ids w' v' _)

-- Members of a group are devices.
devices_of-is_some :
    (devices : Map Device) (l : List String)
    → ((k : String) → includes k l ≡ true → has k devices ≡ true)
    → is_some (devices_of devices l) ≡ true
unfolding devices_of
devices_of-is_some devices [] h = refl
devices_of-is_some devices (k ∷ ks) h =
    ground (arith, h k, eq_refl k, devices_of-is_some devices ks (λ j q. h j (ground arith)))

pub list_devices-Safe :
    {env : Env} (w : World) → Inv env w → (id : String) → Safe env (list_devices env id w)
unfolding list_devices
list_devices-Safe w v id = Yields-bind _ _ w (cleanup_expired-Safe w v) λ _ w' v' _.
    Yields-require _ id w' v' λ d e a. Yields-gets _ _ w' (
      Yields-demand _ _ w' (v'.group_members d.group_id (v'.device_group id d e)) λ ms m.
        Yields-gets _ _ w' (
          Yields-demand _ _ w'
            (devices_of-is_some _ _
              λ k q. ground (arith, includes-keys k ms, v'.member_lives d.group_id k))
            λ ds q. Yields-pure _ w' v' tt))
