-- ===== src/Store/PolicyUpdates.antt =====
-- The policy of a group (apps/server/src/store/sharepaste-store.ts).
use sharepaste.Prelude.{◌+◌, String, ℤ, pos, eq_ℤ, leb_ℤ, not}
use sharepaste.Map.{get, set}
use sharepaste.Types.{Policy, PolicyPatch}
use sharepaste.Env.{Env, now_unix}
use sharepaste.Exec.{
  Exec, policy_version_conflict, invalid_max_file_size, pure, lift, guard, gets, draw, modify,
  ◌>>=◌, ◌>>◌,
}
use sharepaste.Store.Common.{demand, require_device}

unfoldable pub get_policy : String → Exec Policy
get_policy device_id = do
  device ← require_device device_id
  found ← gets λ w. get device.group_id w.groups
  group ← lift (demand found)
  pure group.policy

unfoldable pub update_policy : Env → String → ℤ → PolicyPatch → Exec Policy
update_policy env device_id expected_version patch = do
  device ← require_device device_id
  found ← gets λ w. get device.group_id w.groups
  group ← lift (demand found)
  lift (guard policy_version_conflict (eq_ℤ (pos group.policy.version) expected_version))
  lift (guard invalid_max_file_size (not (leb_ℤ patch.max_file_size_bytes (pos 0))))
  now ← draw (now_unix env)
  let policy : Policy = record {
    allow_text = patch.allow_text;
    allow_image = patch.allow_image;
    allow_file = patch.allow_file;
    max_file_size_bytes = patch.max_file_size_bytes;
    version = group.policy.version + 1;
    updated_by = device.device_id;
    updated_at_unix = now;
  }
  modify λ s. record s { groups = set device.group_id (record group { policy = policy }) s.groups }
  pure policy
