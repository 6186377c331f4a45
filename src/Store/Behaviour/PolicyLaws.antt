-- ===== src/Store/Behaviour/PolicyLaws.antt =====
-- Updates of a policy (`updatePolicy` of apps/server/src/store/sharepaste-store.ts).
use sharepaste.Prelude.{
  ◌+◌, ◌≡◌, String, true, false, some, arith, ℤ, pos, eq_ℤ, leb_ℤ, negsuc, if◌then◌else◌, suc, Bool,
  ℕ,
}
use sharepaste.Map.{get, set, get-set_self}
use sharepaste.Types.{Device, Policy, PolicyPatch, GroupState}
use sharepaste.Env.{Env, now_unix}
use sharepaste.Exec.{World, ok, ◌>>=◌, Result, err, policy_version_conflict, invalid_max_file_size}
use sharepaste.Store.Common.{require_device, find_device}
use sharepaste.Store.PolicyUpdates.{update_policy, get_policy}

version-differs : (n : ℕ) (v : ℤ) → eq_ℤ (pos n) v ≡ true → eq_ℤ (pos (n + 1)) v ≡ false
version-differs n (pos m) e = ground arith
version-differs n (negsuc m) e = ground arith

-- The policy that an update makes.
abbrev pub updated : Env → Device → GroupState → PolicyPatch → World → Policy
updated env d g patch w = record {
  allow_text = patch.allow_text;
  allow_image = patch.allow_image;
  allow_file = patch.allow_file;
  max_file_size_bytes = patch.max_file_size_bytes;
  version = g.policy.version + 1;
  updated_by = d.device_id;
  updated_at_unix = now_unix env w.draws;
}

-- The world after that.
abbrev pub stored : Env → Device → GroupState → PolicyPatch → World → World
stored env d g patch w = record w {
  store = record w.store {
    groups = set d.group_id (record g { policy = updated env d g patch w }) w.groups;
  };
  draws = suc w.draws;
}

abbrev pub returns_ok : {A : Type 0} → Result A → Bool
returns_ok (ok a) = true
returns_ok (err e) = false

module _ (env : Env) (id : String) (w : World) (d : Device) (g : GroupState)
    (known : get id w.devices ≡ some d) (active : d.active ≡ true)
    (grouped : get d.group_id w.groups ≡ some g) where
  -- On a device and a group that are known, `update_policy` returns exactly where the version is
  -- the expected one and the size positive; it then returns and stores the policy of the request.
  -- Anywhere else it changes nothing.
  pub update_policy-cases :
      (expected : ℤ) (patch : PolicyPatch)
      → update_policy env id expected patch w ≡ (
          if eq_ℤ (pos g.policy.version) expected
          then (if leb_ℤ patch.max_file_size_bytes (pos 0)
              then (err invalid_max_file_size, w)
              else (ok (updated env d g patch w), stored env d g patch w))
          else (err policy_version_conflict, w))
  unfolding update_policy require_device find_device ◌>>=◌
  update_policy-cases expected patch = ground arith

  -- A policy that was updated is what the device reads next.
  get_policy-stored :
      (patch : PolicyPatch)
      → get_policy id (stored env d g patch w)
        ≡ (ok (updated env d g patch w), stored env d g patch w)
  unfolding get_policy require_device find_device ◌>>=◌
  get_policy-stored patch =
      let new : GroupState = record g { policy = updated env d g patch w } in
      ground (arith, get-set_self d.group_id new w.groups)

  conflict-stored :
      (expected : ℤ) (patch later : PolicyPatch)
      → eq_ℤ (pos g.policy.version) expected ≡ true
      → update_policy env id expected later (stored env d g patch w)
        ≡ (err policy_version_conflict, stored env d g patch w)
  unfolding update_policy require_device find_device ◌>>=◌
  conflict-stored expected patch later e =
      let new : GroupState = record g { policy = updated env d g patch w } in
      ground
        (arith, get-set_self d.group_id new w.groups, version-differs g.policy.version expected)

  accepted :
      (expected : ℤ) (patch : PolicyPatch)
      → returns_ok (update_policy env id expected patch w).0 ≡ true
      → (eq_ℤ (pos g.policy.version) expected ≡ true)
        × (leb_ℤ patch.max_file_size_bytes (pos 0) ≡ false)
  accepted expected patch h = ground (arith, update_policy-cases expected patch)

  -- No update is lost: of two updates that expect the same version, the second is refused with a
  -- conflict if the first returned, and the device then reads the policy of the first. Premises:
  -- the device is known and active, and its group is known.
  pub update_policy_twice :
      (expected : ℤ) (patch later : PolicyPatch)
      → returns_ok (update_policy env id expected patch w).0 ≡ true
      → let w1 = (update_policy env id expected patch w).1 in
        (update_policy env id expected later w1 ≡ (err policy_version_conflict, w1))
        × (get_policy id w1 ≡ (ok (updated env d g patch w), w1))
  update_policy_twice expected patch later h =
      let (v, s) = accepted expected patch h in
      rw (update_policy-cases expected patch, v, s)
        (conflict-stored expected patch later v, get_policy-stored patch)
