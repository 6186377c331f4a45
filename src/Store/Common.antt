-- ===== src/Store/Common.antt =====
-- The constants and the private methods of `SharePasteStore` (apps/server/src/store/
-- sharepaste-store.ts) that its operations share.
use sharepaste.Prelude.{
  ℕ, ◌+◌, ◌*◌, String, Bool, false, Option, none, some, List, [], ◌∷◌, ◌++◌, ◌||◌, not, ltb, leb,
  if◌then◌else◌, filter, ◌==◌,
}
use sharepaste.Map.{Map, get, set, size, delete_where, map_values}
use sharepaste.Types.{Device, DeviceContext, ClipboardItem, OfflineEnvelope, GroupKeyUpdate, Store}
use sharepaste.Env.{Env, now_unix, seal_group_key_for_device}
use sharepaste.Exec.{
  Exec, Result, ok, err, device_not_found, group_device_limit_reached, type_error,
  invalid_public_key, pure, lift, or_fail, guard, gets, draw, modify, ◌>>=◌,
}

abbrev pub max_bind_attempts : ℕ
max_bind_attempts = 5

abbrev pub bind_ttl_seconds : ℕ
bind_ttl_seconds = 60

abbrev pub offline_ttl_seconds : ℕ
offline_ttl_seconds = 24 * 3600

abbrev pub max_devices_per_group : ℕ
max_devices_per_group = 10

-- A text that is there and not empty.
abbrev pub truthy : Option String → Bool
truthy none = false
truthy (some s) = not (s == "")

-- `m.get(k)!`, dereferenced
abbrev pub demand : {V : Type 0} → Option V → Result V
demand o = or_fail o type_error

unfoldable pub drop_expired : ℕ → Store → Store
drop_expired now s = record s {
  bind_codes = delete_where (λ c. leb c.expires_at_unix now || leb c.attempts_left 0) s.bind_codes;
  bind_requests = delete_where (λ r. leb r.expires_at_unix now) s.bind_requests;
  offline = map_values (filter λ e. ltb now e.expires_at_unix) s.offline;
}

unfoldable pub cleanup_expired : Env → Exec (Unit {0})
unfolding drop_expired
cleanup_expired env = do now ← draw (now_unix env); modify (drop_expired now)

abbrev pub if_active : Device → Result Device
if_active d = if d.active then ok d else err device_not_found

unfoldable pub find_device : String → Map Device → Result Device
find_device id devices = elim (get id devices) [
  | none ↦ err device_not_found
  | some d ↦ if_active d
]

unfoldable pub require_device : String → Exec Device
unfolding find_device
require_device id w = (find_device id w.devices, w)

abbrev pub count_of : Option (Map (Unit {0})) → ℕ
count_of none = 0
count_of (some members) = size members

unfoldable pub check_group_capacity : String → Store → Result (Unit {0})
check_group_capacity group_id s =
    guard group_device_limit_reached
      (not (leb max_devices_per_group (count_of (get group_id s.group_devices))))

unfoldable pub assert_group_capacity : String → Exec (Unit {0})
unfolding check_group_capacity
assert_group_capacity group_id w = (check_group_capacity group_id w.store, w)

unfoldable pub build_device_context : Env → Device → Exec DeviceContext
build_device_context env device = do
  found ← gets λ w. get device.group_id w.groups
  group ← lift (demand found)
  sealed ← draw λ n.
      seal_group_key_for_device env n group.group_id device.pubkey group.group_key_version
        group.group_key_base64
  sealed_group_key ← lift (or_fail sealed invalid_public_key)
  pure (record {
    device = device;
    group_id = group.group_id;
    sealed_group_key = sealed_group_key;
    group_key_version = group.group_key_version;
  })

unfoldable pub build_group_key_update : Env → Device → Exec GroupKeyUpdate
unfolding build_device_context
build_group_key_update env device = do
  context ← build_device_context env device
  pure (record {
    group_id = context.group_id;
    sealed_group_key = context.sealed_group_key;
    group_key_version = context.group_key_version;
  })

abbrev pub queue_of : Option (List OfflineEnvelope) → List OfflineEnvelope
queue_of none = []
queue_of (some queue) = queue

unfoldable pub enqueue_offline : Env → String → ClipboardItem → Exec (Unit {0})
enqueue_offline env target item = do
  queue ← gets λ w. queue_of (get target w.offline)
  now ← draw (now_unix env)
  modify λ s. record s {
    offline =
        set target
          (queue
            ++ record {
              item = item;
              target_device_id = target;
              expires_at_unix = now + offline_ttl_seconds;
            }
              ∷ [])
          s.offline;
  }
