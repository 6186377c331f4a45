-- ===== src/Store/Keeps/Common.antt =====
-- The private methods are safe.
use sharepaste.Prelude.{◌≡◌, refl, true, String}
use sharepaste.Map.{has}
use sharepaste.Types.{Device, ClipboardItem}
use sharepaste.Env.{Env}
use sharepaste.Exec.{World}
use sharepaste.Store.Common.{
  cleanup_expired, build_device_context, build_group_key_update, enqueue_offline,
}
use sharepaste.Store.Sound.{Inv}
use sharepaste.Store.Keeps.Steps.{Sound-draw}
use sharepaste.Store.Keeps.Rules.{
  Safe, Yields-write, Yields-pure, Yields-bind, Yields-gets, Yields-draw, Yields-demand,
  Yields-or_fail,
}

module _ {env : Env} (w : World) (v : Inv env w) where
  pub cleanup_expired-Safe : Safe env (cleanup_expired env w)
  unfolding cleanup_expired
  cleanup_expired-Safe = Yields-draw _ _ w (Yields-write _ _ (Sound-draw v) tt)

  pub build_device_context-Safe :
      (d : Device) → has d.group_id w.groups ≡ true → Safe env (build_device_context env d w)
  unfolding build_device_context
  build_device_context-Safe d h = Yields-gets _ _ w (
      Yields-demand _ _ w h λ group g.
        Yields-draw _ _ w
          (Yields-or_fail _ _ _ _ (Sound-draw v) refl λ key e. Yields-pure _ _ (Sound-draw v) tt))

  pub build_group_key_update-Safe :
      (d : Device) → has d.group_id w.groups ≡ true → Safe env (build_group_key_update env d w)
  unfolding build_group_key_update
  build_group_key_update-Safe d h =
      Yields-bind _ _ w (build_device_context-Safe d h) λ context w' v' _. Yields-pure _ w' v' tt

  pub enqueue_offline-Safe :
      (target : String) (item : ClipboardItem) → Safe env (enqueue_offline env target item w)
  unfolding enqueue_offline
  enqueue_offline-Safe target item =
      Yields-gets _ _ w (Yields-draw _ _ w (Yields-write _ _ (Sound-draw v) tt))
