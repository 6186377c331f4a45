-- ===== src/Tests/Histories.antt =====
-- Histories of calls on a new store.
use sharepaste.Store.Snapshot.Restored.{restarted, served_store_restarts}
use sharepaste.Store.Sound.{lists}
use sharepaste.Store.Devices.{register_device, create_group, enroll, new_device}
use sharepaste.Store.Common.{count_of, max_devices_per_group, cleanup_expired, drop_expired}
use sharepaste.Exec.{◌>>=◌}
use sharepaste.Policy.{default_policy}
use sharepaste.Env.{
  make_device_id, make_group_id, now_unix, hash_recovery_phrase, generate_recovery_phrase,
  generate_group_key_base64, seal_group_key_for_device,
}
use sharepaste.Types.{Device}
use sharepaste.Map.{get, set, empty, delete_where, map_values}
use sharepaste.Prelude.{◌≡◌, false, List, [], ◌∷◌, ◌≤◌, some, ◌&&◌, ◌==◌, true, refl, none}
use sharepaste.Store.Calls.{Call, registers, perform, boot, serve}
use sharepaste.Store.Keeps.Rules.{faults}
use sharepaste.Store.Keeps.Histories.{
  served_store_never_faults, served_group_size, served_membership,
}
use sharepaste.Tests.Samples.{sample_env, sample_env-FreshIds, laptop, tally}

abbrev two_devices : List Call
two_devices = registers laptop ∷ registers laptop ∷ []

served_store_never_faults_example :
    faults (perform sample_env 3 (registers laptop) (serve sample_env 3 boot two_devices)).0 ≡ false
served_store_never_faults_example =
    served_store_never_faults sample_env-FreshIds 3 two_devices (registers laptop)

served_group_size_example :
    count_of (get "grp_x" (serve sample_env 3 boot two_devices).group_devices)
    ≤ max_devices_per_group
served_group_size_example = served_group_size sample_env-FreshIds 3 two_devices "grp_x"

-- The device that the first call registers.
abbrev first_device : Device
first_device =
    new_device laptop (record { group_id = "grp_x"; recovery_phrase = "xx"; created = true })
      "dev_xxxxxx" 1000

first_device-known :
    get "dev_xxxxxx" (serve sample_env 3 boot two_devices).devices ≡ some first_device
unfolding serve perform register_device create_group enroll cleanup_expired drop_expired ◌>>=◌ get
    set empty delete_where map_values default_policy now_unix make_device_id make_group_id tally
    hash_recovery_phrase generate_recovery_phrase generate_group_key_base64
    seal_group_key_for_device
first_device-known = refl

served_membership_example :
    lists "dev_xxxxxx" (get "grp_x" (serve sample_env 3 boot two_devices).group_devices)
    ≡ (first_device.active && first_device.group_id == "grp_x")
served_membership_example =
    served_membership sample_env-FreshIds 3 two_devices "dev_xxxxxx" "grp_x" first_device
      first_device-known

served_store_restarts_example :
    let s = (serve sample_env 3 boot two_devices).store in
    (get "dev_xxxxxx" (restarted s).devices ≡ get "dev_xxxxxx" s.devices)
    × (get "grp_x" (restarted s).groups ≡ get "grp_x" s.groups)
    × (lists "dev_xxxxxx" (get "grp_x" (restarted s).group_devices)
        ≡ lists "dev_xxxxxx" (get "grp_x" s.group_devices))
    × (get "dev_xxxxxx" (restarted s).offline ≡ get "dev_xxxxxx" s.offline)
    × (lists "dev_xxxxxx" (get "grp_x" (restarted s).seen_items)
        ≡ lists "dev_xxxxxx" (get "grp_x" s.seen_items))
    × (get "dev_xxxxxx" (restarted s).presences ≡ none)
served_store_restarts_example =
    served_store_restarts sample_env-FreshIds 3 two_devices "dev_xxxxxx" "grp_x"
