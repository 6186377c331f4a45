-- ===== src/Store/Keeps/Policies.antt =====
-- The calls on policies are safe.
use sharepaste.Prelude.{refl, String, ℤ}
use sharepaste.Types.{Policy, PolicyPatch}
use sharepaste.Env.{Env}
use sharepaste.Exec.{World}
use sharepaste.Store.PolicyUpdates.{get_policy, update_policy}
use sharepaste.Store.Sound.{Inv}
use sharepaste.Store.Keeps.Steps.{Sound-draw, Sound-group}
use sharepaste.Store.Keeps.Rules.{
  Safe, Yields, Yields-pure, Yields-require, Yields-gets, Yields-draw, Yields-demand, Yields-guard,
  Yields-modify,
}

module _ {env : Env} (w : World) (v : Inv env w) where
  -- The world stays as it is.
  pub get_policy-Yields :
      {P : Policy → World → Type 0} (id : String)
      → ((policy : Policy) → P policy w)
      → Yields env P (get_policy id w)
  unfolding get_policy
  get_policy-Yields id p = Yields-require _ id w v λ d e a.
      Yields-gets _ _ w
        (Yields-demand _ _ w (v.device_group id d e) λ group g. Yields-pure _ w v (p group.policy))

  pub update_policy-Safe :
      (id : String) (version : ℤ) (patch : PolicyPatch)
      → Safe env (update_policy env id version patch w)
  unfolding update_policy
  update_policy-Safe id version patch = Yields-require _ id w v λ d e a. Yields-gets _ _ w (
      Yields-demand _ _ w (v.device_group id d e) λ group g. Yields-guard _ _ _ w v refl λ _.
        Yields-guard _ _ _ w v refl λ _. Yields-draw _ _ w (
          Yields-modify _ _ _ (
            Yields-pure _ _
              (Sound-group (Sound-draw v) d.group_id _ (v.device_group id d e)
                (v.group_key d.group_id group g))
              tt)))
