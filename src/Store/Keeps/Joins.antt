-- ===== src/Store/Keeps/Joins.antt =====
-- A new group, a new device, and a device that moves keep the store sound.
use sharepaste.Store.Keeps.Places.{
  moved, lists-moved, size-moved-le, lists-left, size-left-le, has-moved,
}
use text.Mathlib.TextLemmas.{append_cancel_left}
use sharepaste.Prelude.{ℕ, ◌<◌, ◌≡◌, String, true, false, none, some, arith, eq_iff}
use sharepaste.Map.{
  Map, StringSet, empty, get, has, size, set, delete, add, update, get-set, get-empty, get-update,
  size-empty, size-set,
}
use sharepaste.Types.{Device, GroupState}
use sharepaste.Env.{Env, make_device_id, make_group_id}
use sharepaste.Store.Common.{count_of, max_devices_per_group}
use sharepaste.Store.Sound.{Sound}

-- `nanoid` makes no identifier twice.
pub record FreshIds (env : Env) : Type 0 where
  pub distinct : (size m n : ℕ) → env.nanoid size m ≡ env.nanoid size n → m ≡ n

module _ {env : Env} (ids : FreshIds env) where
  device_ids : (m n : ℕ) → make_device_id env m ≡ make_device_id env n → m ≡ n
  unfolding make_device_id
  device_ids m n e = ids.distinct 16 m n (append_cancel_left "dev_" _ _ e)

  group_ids : (m n : ℕ) → make_group_id env m ≡ make_group_id env n → m ≡ n
  unfolding make_group_id
  group_ids m n e = ids.distinct 16 m n (append_cancel_left "grp_" _ _ e)

module _ {env : Env} {n : ℕ} {devices : Map Device} {groups : Map GroupState}
    {members seen : Map StringSet} (v : Sound env n devices groups members seen) where
  -- A device moves to a group that has room.
  pub Sound-move :
      (k g : String) (d d' : Device)
      → get k devices ≡ some d
      → d'.device_id ≡ d.device_id
      → d'.group_id ≡ g
      → d'.active ≡ true
      → has g groups ≡ true
      → count_of (get g members) < max_devices_per_group
      → Sound env n (set k d' devices) groups (moved d.device_id d.group_id g members) seen
  Sound-move k g d d' e i h a w r = record {
    device_key = λ j x p.
        ground (arith, get-set k j d' devices, eq_iff k j, v.device_key j x, v.device_key k d);
    group_key = v.group_key;
    device_group = λ j x p. ground (arith, get-set k j d' devices, v.device_group j x);
    group_members =
        λ q p. ground (arith, has-moved d.device_id d.group_id g members q, v.group_members q);
    group_seen = v.group_seen;
    member_lives = λ q j p. ground (
      arith,
      lists-moved d.device_id d.group_id g members q j,
      get-set k j d' devices,
      v.member_lives q j,
      eq_iff k j,
      eq_iff d.device_id j,
      v.device_key k d,
      eq_iff g q,
      eq_iff d.group_id q,
    );
    device_listed = λ j x p q. ground (
      arith,
      lists-moved d.device_id d.group_id g members x.group_id j,
      get-set k j d' devices,
      v.device_listed j x,
      eq_iff k j,
      eq_iff d.device_id j,
      v.device_key k d,
      eq_iff g x.group_id,
      v.group_members g,
    );
    capacity = λ q.
        ground (arith, size-moved-le d.device_id d.group_id g members q, v.capacity q, eq_iff g q);
    fresh_device = λ q b. ground (
      arith,
      get-set k (make_device_id env q) d' devices,
      eq_iff k (make_device_id env q),
      v.fresh_device q,
    );
    fresh_group = v.fresh_group;
  }

  -- A group is made.
  pub Sound-create :
      FreshIds env
      → (g : String) (s : GroupState) (p : ℕ) → g ≡ make_group_id env p
      → p < n
      → get g groups ≡ none
      → s.group_id ≡ g
      → Sound env n devices (set g s groups) (set g empty members) (set g empty seen)
  Sound-create ids g s p e below new i = record {
    device_key = v.device_key;
    group_key = λ h x q. ground (arith, get-set g h s groups, eq_iff g h, v.group_key h x);
    device_group = λ j x q. ground (arith, get-set g x.group_id s groups, v.device_group j x);
    group_members =
        λ h q. ground (arith, get-set g h s groups, get-set g h (empty) members, v.group_members h);
    group_seen =
        λ h q. ground (arith, get-set g h s groups, get-set g h (empty) seen, v.group_seen h);
    member_lives = λ h j q.
        ground (arith, get-set g h (empty) members, get-empty {V = Unit {0}} j, v.member_lives h j);
    device_listed = λ j x q a. ground (
      arith,
      get-set g x.group_id (empty) members,
      eq_iff g x.group_id,
      v.device_listed j x,
      v.device_group j x,
    );
    capacity =
        λ h. ground (arith, get-set g h (empty) members, size-empty (Unit {0}), v.capacity h);
    fresh_device = v.fresh_device;
    fresh_group = λ m b. ground (
      arith,
      get-set g (make_group_id env m) s groups,
      eq_iff g (make_group_id env m),
      v.fresh_group m,
      group_ids ids p m,
    );
  }

  -- A device is made in a group that has room.
  pub Sound-enroll :
      FreshIds env
      → (k : String) (d : Device) (ms : StringSet) (p : ℕ) → k ≡ make_device_id env p
      → p < n
      → get k devices ≡ none
      → d.device_id ≡ k
      → d.active ≡ true
      → has d.group_id groups ≡ true
      → get d.group_id members ≡ some ms
      → size ms < max_devices_per_group
      → Sound env n (set k d devices) groups (set d.group_id (add k ms) members) seen
  Sound-enroll ids k d ms p e below new i a w m r = record {
    device_key = λ j x q. ground (arith, get-set k j d devices, eq_iff k j, v.device_key j x);
    group_key = v.group_key;
    device_group = λ j x q. ground (arith, get-set k j d devices, v.device_group j x);
    group_members =
        λ h q. ground (arith, get-set d.group_id h (add k ms) members, v.group_members h);
    group_seen = v.group_seen;
    member_lives = λ h j q. ground (
      arith,
      get-set k j d devices,
      eq_iff k j,
      get-set d.group_id h (add k ms) members,
      eq_iff d.group_id h,
      get-set k j tt ms,
      v.member_lives h j,
    );
    device_listed = λ j x q b. ground (
      arith,
      get-set k j d devices,
      eq_iff k j,
      get-set d.group_id x.group_id (add k ms) members,
      eq_iff d.group_id x.group_id,
      get-set k j tt ms,
      v.device_listed j x,
    );
    capacity = λ h.
        ground (arith, get-set d.group_id h (add k ms) members, size-set k tt ms, v.capacity h);
    fresh_device = λ q b. ground (
      arith,
      get-set k (make_device_id env q) d devices,
      eq_iff k (make_device_id env q),
      v.fresh_device q,
      device_ids ids p q,
    );
    fresh_group = v.fresh_group;
  }

  -- A device is taken out of its group for good.
  pub Sound-remove :
      (k : String) (d d' : Device)
      → get k devices ≡ some d
      → d'.device_id ≡ d.device_id
      → d'.group_id ≡ d.group_id
      → d'.active ≡ false
      → Sound env n (set k d' devices) groups (update d.group_id (delete d.device_id) members) seen
  Sound-remove k d d' e i g a = record {
    device_key = λ j x p.
        ground (arith, get-set k j d' devices, eq_iff k j, v.device_key j x, v.device_key k d);
    group_key = v.group_key;
    device_group = λ j x p.
        ground (arith, get-set k j d' devices, eq_iff k j, v.device_group j x, v.device_group k d);
    group_members = λ h p.
        ground (arith, get-update d.group_id h (delete d.device_id) members, v.group_members h);
    group_seen = v.group_seen;
    member_lives = λ h j p. ground (
      arith,
      lists-left d.device_id d.group_id members h j,
      get-set k j d' devices,
      v.member_lives h j,
      v.device_key k d,
      eq_iff k j,
      eq_iff d.device_id j,
      eq_iff d.group_id h,
    );
    device_listed = λ j x p q. ground (
      arith,
      lists-left d.device_id d.group_id members x.group_id j,
      get-set k j d' devices,
      v.device_listed j x,
      v.device_key k d,
      eq_iff k j,
      eq_iff d.device_id j,
    );
    capacity = λ h. ground (arith, size-left-le d.device_id d.group_id members h, v.capacity h);
    fresh_device = λ q h. ground (
      arith,
      get-set k (make_device_id env q) d' devices,
      eq_iff k (make_device_id env q),
      v.fresh_device q,
    );
    fresh_group = v.fresh_group;
  }
