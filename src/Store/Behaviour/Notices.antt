-- ===== src/Store/Behaviour/Notices.antt =====
-- The notices of a new key, which read the devices and the groups (apps/server/src/store/
-- sharepaste-store.ts).

use sharepaste.Prelude.{String, Option, none, some, List, [], ◌∷◌}
use sharepaste.Map.{Map}
use sharepaste.Types.{Device, GroupState, PresenceState}
use sharepaste.Env.{Env}
use sharepaste.Exec.{World}
use sharepaste.Store.Common.{build_device_context, build_group_key_update}
use sharepaste.Store.Pairing.{notify_member, notify_members}
use sharepaste.Store.Behaviour.Outcomes.{
  Ends, Whatever, Ends-bind, Ends-gets, Ends-lift, Ends-draw, Ends-choose, Ends-pure, Ends-emit,
}

-- What holds of the devices and the groups.
module _ (env : Env) (R : Map Device → Map GroupState → Type 0) where
  abbrev pub Of : World → Type 0
  Of w = R w.devices w.groups

  pub build_device_context-Of :
      (d : Device) (w : World) → Of w → Ends Of Whatever (build_device_context env d w)
  unfolding build_device_context
  build_device_context-Of d w h = Ends-gets _ _ w (
      Ends-lift _ _ w tt
        λ group _. Ends-draw _ _ w (Ends-lift _ _ _ tt λ sealed _. Ends-pure _ _ h))

  build_group_key_update-Of :
      (d : Device) (w : World) → Of w → Ends Of Whatever (build_group_key_update env d w)
  unfolding build_group_key_update
  build_group_key_update-Of d w h =
      Ends-bind _ Of _ w (build_device_context-Of d w h) λ context w' h'. Ends-pure _ w' h'

  notify_member-Of :
      (presence : Option PresenceState) (member : Option Device) (w : World)
      → Of w
      → Ends Of Whatever (notify_member env presence member w)
  unfolding notify_member
  notify_member-Of none member w h = Ends-pure _ w h
  notify_member-Of (some presence) none w h = Ends-pure _ w h
  notify_member-Of (some presence) (some member) w h =
      Ends-choose member.active _ _ w
        (λ on.
          Ends-bind _ Of _ w (build_group_key_update-Of member w h)
            λ update w' h'. Ends-emit _ _ w' h')
        λ off. Ends-pure _ w h

  pub notify_members-Of :
      (ids : List String) (w : World) → Of w → Ends Of Whatever (notify_members env ids w)
  unfolding notify_members
  notify_members-Of [] w h = Ends-pure _ w h
  notify_members-Of (id ∷ ids) w h = Ends-gets _ _ w (
      Ends-gets _ _ w
        (Ends-bind _ Of _ w (notify_member-Of _ _ w h) λ _ w' h'. notify_members-Of ids w' h'))
