-- ===== src/Tests/JoinRuns.antt =====
-- Two devices of which the second joins the group of the first, and the theorem on approvals there.
use sharepaste.Prelude.{◌≡◌, refl, true, none, some, List, [], ◌∷◌, ◌==◌, String}
use sharepaste.Map.{get, set, empty, keys, delete, update, delete_where, map_values, size}
use sharepaste.Types.{Device, BindRequest, GroupState}
use sharepaste.Env.{
  make_device_id, make_group_id, make_request_id, now_unix, hash_recovery_phrase,
  generate_recovery_phrase, generate_group_key_base64, generate_bind_code,
  seal_group_key_for_device,
}
use sharepaste.Exec.{World, ok, ◌>>=◌}
use sharepaste.Policy.{default_policy}
use sharepaste.Store.Common.{
  cleanup_expired, drop_expired, require_device, find_device, build_device_context,
  assert_group_capacity, check_group_capacity,
}
use sharepaste.Store.Devices.{register_device, create_group, enroll}
use sharepaste.Store.Pairing.{
  create_bind_code, unused_code, request_bind, use_attempt, notify_issuer, confirm_bind,
  bind_devices, move_device, rotate_key, write_request, drop_request, notify_members, notify_member,
}
use sharepaste.Store.Calls.{Call, registers, creates_code, requests_bind, perform, boot, serve}
use sharepaste.Store.Sound.{lists, lives_in}
use sharepaste.Store.Behaviour.JoinLaws.{version_of, confirm_bind_joins}
use sharepaste.Tests.Samples.{sample_env, sample_env-FreshIds, laptop, tally}

abbrev pairing : List Call
pairing =
    registers laptop
    ∷ registers laptop
    ∷ creates_code "dev_xxxxxx"
    ∷ requests_bind "xxxxxxxxxxxxxxxxxxx" "dev_xxxxxxxxxxxxxxx"
    ∷ []

abbrev paired : World
paired = serve sample_env 3 boot pairing

abbrev first : Device
first = record {
  device_id = "dev_xxxxxx";
  group_id = "grp_x";
  pubkey = "key";
  name = "laptop";
  platform = "linux";
  last_seen_unix = 1000;
  active = true;
}

abbrev second : Device
second = record first { device_id = "dev_xxxxxxxxxxxxxxx"; group_id = "grp_xxxxxxxxxx" }

abbrev asked : BindRequest
asked = record {
  request_id = "req_xxxxxxxxxxxxxxxxxxxxxxx";
  code = "xxxxxxxxxxxxxxxxxxx";
  issuer_device_id = "dev_xxxxxx";
  requester_device_id = "dev_xxxxxxxxxxxxxxx";
  expires_at_unix = 1060;
  approved = none;
  group_id = none;
  sealed_group_key = none;
  group_key_version = none;
}

abbrev first_group : GroupState
first_group = record {
  group_id = "grp_x";
  recovery_phrase_hash = "xx";
  group_key_version = 1;
  group_key_base64 = "xxxx";
  policy = default_policy "system" 1000;
}

abbrev joined : World
joined = (confirm_bind sample_env asked.request_id "dev_xxxxxx" true paired).1

abbrev answer : BindRequest
answer = record asked {
  approved = some true;
  group_id = some "grp_x";
  sealed_group_key = some "xxxxxxxxxxxxxxxxxxxxxxxxxxx";
  group_key_version = some 2;
}

-- What is stored before the answer, and the answer.
all_stored :
    (get asked.request_id paired.bind_requests ≡ some asked)
    × (get "dev_xxxxxx" paired.devices ≡ some first)
    × (get "dev_xxxxxxxxxxxxxxx" paired.devices ≡ some second)
    × (get "grp_x" paired.groups ≡ some first_group)
    × (confirm_bind sample_env asked.request_id "dev_xxxxxx" true paired ≡ (ok answer, joined))
unfolding serve perform register_device create_group enroll cleanup_expired drop_expired ◌>>=◌ get
    set empty delete_where map_values default_policy now_unix make_device_id make_group_id tally
    hash_recovery_phrase generate_recovery_phrase generate_group_key_base64
    seal_group_key_for_device create_bind_code keys unused_code require_device find_device
    generate_bind_code request_bind use_attempt notify_issuer make_request_id delete update
    confirm_bind bind_devices move_device rotate_key write_request drop_request notify_members
    notify_member build_device_context assert_group_capacity check_group_capacity size
all_stored = (refl, refl, refl, refl, refl)

confirm_bind_joins_example :
    (lives_in "grp_x" (get "dev_xxxxxxxxxxxxxxx" joined.devices) ≡ true)
    × ((g : String) → lists "dev_xxxxxxxxxxxxxxx" (get g joined.group_devices) ≡ ("grp_x" == g))
    × (version_of (get "grp_x" joined.groups) ≡ 2)
confirm_bind_joins_example =
    confirm_bind_joins sample_env-FreshIds 3 pairing asked.request_id "dev_xxxxxx" asked first
      second first_group all_stored.0 all_stored.1 all_stored.2 refl all_stored.3 answer joined
      all_stored.4
