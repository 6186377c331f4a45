-- ===== src/Store/Sound.antt =====
-- What holds of the devices, the groups and their members between two calls
-- (apps/server/src/store/sharepaste-store.ts).
use sharepaste.Prelude.{ℕ, ◌≤◌, ◌≡◌, String, Bool, true, false, Option, none, some, ◌&&◌, ◌==◌}
use sharepaste.Map.{Map, StringSet, get, has}
use sharepaste.Types.{Device, GroupState}
use sharepaste.Env.{Env, make_device_id, make_group_id}
use sharepaste.Exec.{World}
use sharepaste.Store.Common.{max_devices_per_group, count_of}

-- An active device of the group.
abbrev pub lives_in : String → Option Device → Bool
lives_in g none = false
lives_in g (some d) = d.active && d.group_id == g

abbrev pub lists : String → Option StringSet → Bool
lists k none = false
lists k (some members) = has k members

pub record Sound (env : Env) (draws : ℕ) (devices : Map Device) (groups : Map GroupState)
    (members seen : Map StringSet) : Type 0 where
  pub device_key : (k : String) (d : Device) → get k devices ≡ some d → d.device_id ≡ k
  pub group_key : (g : String) (s : GroupState) → get g groups ≡ some s → s.group_id ≡ g
  pub device_group :
      (k : String) (d : Device) → get k devices ≡ some d → has d.group_id groups ≡ true
  pub group_members : (g : String) → has g groups ≡ true → has g members ≡ true
  pub group_seen : (g : String) → has g groups ≡ true → has g seen ≡ true
  pub member_lives :
      (g k : String) → lists k (get g members) ≡ true → lives_in g (get k devices) ≡ true
  pub device_listed :
      (k : String) (d : Device)
      → get k devices ≡ some d
      → d.active ≡ true
      → lists k (get d.group_id members) ≡ true
  pub capacity : (g : String) → count_of (get g members) ≤ max_devices_per_group
  pub fresh_device : (n : ℕ) → draws ≤ n → get (make_device_id env n) devices ≡ none
  pub fresh_group : (n : ℕ) → draws ≤ n → get (make_group_id env n) groups ≡ none

-- The store is sound, whatever its other maps hold.
abbrev pub Inv : Env → World → Type 0
Inv env w = Sound env w.draws w.devices w.groups w.group_devices w.seen_items
