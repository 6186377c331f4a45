-- ===== src/Store/Keeps/Steps.antt =====
-- The changes that the operations make to devices, groups and members keep the store sound.
use sharepaste.Prelude.{ℕ, suc, ◌≡◌, String, true, some, arith, eq_iff}
use sharepaste.Map.{Map, StringSet, get, has, set, get-set}
use sharepaste.Types.{Device, GroupState}
use sharepaste.Env.{Env, make_device_id, make_group_id}
use sharepaste.Store.Sound.{Sound}

module _ {env : Env} {n : ℕ} {devices : Map Device} {groups : Map GroupState}
    {members seen : Map StringSet} (v : Sound env n devices groups members seen) where
  -- A value is drawn.
  pub Sound-draw : Sound env (suc n) devices groups members seen
  Sound-draw = record {
    device_key = v.device_key;
    group_key = v.group_key;
    device_group = v.device_group;
    group_members = v.group_members;
    group_seen = v.group_seen;
    member_lives = v.member_lives;
    device_listed = v.device_listed;
    capacity = v.capacity;
    fresh_device = λ m h. v.fresh_device m (omega arith);
    fresh_group = λ m h. v.fresh_group m (omega arith);
  }

  -- A device is written back with its identifier, group and standing.
  pub Sound-touch :
      (k : String) (d d' : Device)
      → get k devices ≡ some d
      → d'.device_id ≡ d.device_id
      → d'.group_id ≡ d.group_id
      → d'.active ≡ d.active
      → Sound env n (set k d' devices) groups members seen
  Sound-touch k d d' e i g a = record {
    device_key = λ j x p.
        ground (arith, get-set k j d' devices, eq_iff k j, v.device_key j x, v.device_key k d);
    group_key = v.group_key;
    device_group = λ j x p.
        ground (arith, get-set k j d' devices, eq_iff k j, v.device_group j x, v.device_group k d);
    group_members = v.group_members;
    group_seen = v.group_seen;
    member_lives = λ h j p. ground (arith, get-set k j d' devices, eq_iff k j, v.member_lives h j);
    device_listed = λ j x p q.
        ground
          (arith, get-set k j d' devices, eq_iff k j, v.device_listed j x, v.device_listed k d);
    capacity = v.capacity;
    fresh_device = λ m h. ground (
      arith,
      get-set k (make_device_id env m) d' devices,
      eq_iff k (make_device_id env m),
      v.fresh_device m,
    );
    fresh_group = v.fresh_group;
  }

  -- A group is written back with its identifier.
  pub Sound-group :
      (g : String) (s : GroupState)
      → has g groups ≡ true
      → s.group_id ≡ g
      → Sound env n devices (set g s groups) members seen
  Sound-group g s e i = record {
    device_key = v.device_key;
    group_key = λ h x p. ground (arith, get-set g h s groups, eq_iff g h, v.group_key h x);
    device_group = λ j x p. ground (arith, get-set g x.group_id s groups, v.device_group j x);
    group_members = λ h p. ground (arith, get-set g h s groups, eq_iff g h, v.group_members h);
    group_seen = λ h p. ground (arith, get-set g h s groups, eq_iff g h, v.group_seen h);
    member_lives = v.member_lives;
    device_listed = v.device_listed;
    capacity = v.capacity;
    fresh_device = v.fresh_device;
    fresh_group = λ m h. ground (
      arith,
      get-set g (make_group_id env m) s groups,
      eq_iff g (make_group_id env m),
      v.fresh_group m,
    );
  }

  -- The items that a group has seen are written back.
  pub Sound-seen :
      (g : String) (items : StringSet) → Sound env n devices groups members (set g items seen)
  Sound-seen g items = record {
    device_key = v.device_key;
    group_key = v.group_key;
    device_group = v.device_group;
    group_members = v.group_members;
    group_seen = λ h p. ground (arith, get-set g h items seen, v.group_seen h);
    member_lives = v.member_lives;
    device_listed = v.device_listed;
    capacity = v.capacity;
    fresh_device = v.fresh_device;
    fresh_group = v.fresh_group;
  }
