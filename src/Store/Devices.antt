-- ===== src/Store/Devices.antt =====
-- Registration, recovery and the list of devices (apps/server/src/store/sharepaste-store.ts).
use sharepaste.Prelude.{
  String, Bool, true, false, Option, none, some, List, [], ◌∷◌, ◌&&◌, ◌==◌, if◌then◌else◌, filter,
  find, ℕ,
}
use sharepaste.Map.{Map, get, set, delete, add, keys, values, empty, update}
use sharepaste.Types.{Device, DeviceContext, GroupState, RegisterDeviceInput, RegisterDeviceResult}
use sharepaste.Policy.{default_policy}
use sharepaste.Env.{
  Env, now_unix, make_device_id, make_group_id, generate_recovery_phrase, generate_group_key_base64,
  hash_recovery_phrase, seal_group_key_for_device,
}
use sharepaste.Exec.{
  Exec, group_not_found, recovery_phrase_invalid, group_mismatch, invalid_public_key, pure, lift,
  or_fail, guard, gets, draw, modify, ◌>>=◌, ◌>>◌,
}
use sharepaste.Store.Common.{
  truthy, demand, cleanup_expired, require_device, assert_group_capacity, build_device_context,
}

abbrev text_of : Option String → String
text_of none = ""
text_of (some s) = s

-- The group that a device joins, its recovery phrase, and whether it is new.
pub record Choice : Type 0 where
  pub group_id : String
  pub recovery_phrase : String
  pub created : Bool

unfoldable pub join_group : Env → RegisterDeviceInput → Exec Choice
join_group env input = do
  found ← gets λ w. get (text_of input.group_id) w.groups
  group ← lift (or_fail found group_not_found)
  lift (
      guard recovery_phrase_invalid
        (group.recovery_phrase_hash == hash_recovery_phrase env (text_of input.recovery_phrase)))
  assert_group_capacity group.group_id
  pure (record {
    group_id = group.group_id;
    recovery_phrase = text_of input.recovery_phrase;
    created = false;
  })

unfoldable pub create_group : Env → Exec Choice
create_group env = do
  group_id ← draw (make_group_id env)
  phrase ← draw (generate_recovery_phrase env)
  _ ← draw (now_unix env)
  key ← draw (generate_group_key_base64 env)
  now ← draw (now_unix env)
  modify λ s. record s {
    groups =
        set group_id
          (record {
            group_id = group_id;
            recovery_phrase_hash = hash_recovery_phrase env phrase;
            group_key_version = 1;
            group_key_base64 = key;
            policy = default_policy "system" now;
          })
          s.groups;
    group_devices = set group_id empty s.group_devices;
    seen_items = set group_id empty s.seen_items;
  }
  pure (record { group_id = group_id; recovery_phrase = phrase; created = true })

abbrev pub new_device : RegisterDeviceInput → Choice → String → ℕ → Device
new_device input choice id now = record {
  device_id = id;
  group_id = choice.group_id;
  pubkey = input.pubkey;
  name = input.device_name;
  platform = input.platform;
  last_seen_unix = now;
  active = true;
}

-- What follows the choice of the group.
unfoldable pub enroll : Env → RegisterDeviceInput → Choice → Exec RegisterDeviceResult
enroll env input choice = do
  id ← draw (make_device_id env)
  now ← draw (now_unix env)
  let device : Device = new_device input choice id now
  modify λ s. record s { devices = set id device s.devices }
  found ← gets λ w. get choice.group_id w.group_devices
  members ← lift (demand found)
  modify λ s. record s { group_devices = set choice.group_id (add id members) s.group_devices }
  stored ← gets λ w. get choice.group_id w.groups
  group ← lift (demand stored)
  sealed ← draw λ n.
      seal_group_key_for_device env n choice.group_id input.pubkey group.group_key_version
        group.group_key_base64
  sealed_group_key ← lift (or_fail sealed invalid_public_key)
  pure (record {
    device = device;
    group_id = choice.group_id;
    recovery_phrase = choice.recovery_phrase;
    created_new_group = choice.created;
    sealed_group_key = sealed_group_key;
  })

unfoldable pub register_device : Env → RegisterDeviceInput → Exec RegisterDeviceResult
register_device env input = do
  cleanup_expired env
  choice ←
      if truthy input.group_id && truthy input.recovery_phrase
      then join_group env input
      else create_group env
  enroll env input choice

unfoldable pub recover_group : Env → String → String → String → String → Exec RegisterDeviceResult
recover_group env device_name platform pubkey phrase = do
  cleanup_expired env
  found ← gets λ w.
      find (λ (g : GroupState). g.recovery_phrase_hash == hash_recovery_phrase env phrase)
        (values w.groups)
  group ← lift (or_fail found recovery_phrase_invalid)
  assert_group_capacity group.group_id
  register_device env (record {
    device_name = device_name;
    platform = platform;
    pubkey = pubkey;
    group_id = some group.group_id;
    recovery_phrase = some phrase;
  })

unfoldable pub get_device_context : Env → String → Exec DeviceContext
get_device_context env device_id = do
  cleanup_expired env
  device ← require_device device_id
  now ← draw (now_unix env)
  let seen : Device = record device { last_seen_unix = now }
  modify λ s. record s { devices = set device_id seen s.devices }
  build_device_context env seen

-- `none`: an identifier has no device.
unfoldable pub devices_of : Map Device → List String → Option (List Device)
devices_of devices [] = some []
devices_of devices (id ∷ ids) = elim (get id devices) [
  | none ↦ none
  | some d ↦ elim (devices_of devices ids) [ none ↦ none | some ds ↦ some (d ∷ ds) ]
]

unfoldable pub list_devices : Env → String → Exec (List Device)
list_devices env device_id = do
  cleanup_expired env
  requester ← require_device device_id
  found ← gets λ w. get requester.group_id w.group_devices
  members ← lift (demand found)
  all ← gets λ w. devices_of w.devices (keys members)
  devices ← lift (demand all)
  pure (filter (λ d. d.active) devices)

unfoldable pub rename_device : Env → String → String → Exec Device
rename_device env device_id new_name = do
  device ← require_device device_id
  now ← draw (now_unix env)
  let renamed : Device = record device { name = new_name; last_seen_unix = now }
  modify λ s. record s { devices = set device_id renamed s.devices }
  pure renamed

unfoldable pub remove_device : Env → String → String → Exec Bool
remove_device env request_device_id target_device_id = do
  requester ← require_device request_device_id
  target ← require_device target_device_id
  lift (guard group_mismatch (requester.group_id == target.group_id))
  now ← draw (now_unix env)
  modify λ s. record s {
    devices =
        set target_device_id (record target { active = false; last_seen_unix = now }) s.devices;
    presences = delete target.device_id s.presences;
    group_devices = update target.group_id (delete target.device_id) s.group_devices;
  }
  pure true
