-- ===== src/Store/Snapshot/Restored.antt =====
-- A store that is rebuilt from the snapshot of another (apps/server/src/store/sharepaste-store.ts).
use mathlib.Core.Option
use sharepaste.Prelude.{ℕ, ◌≡◌, refl, String, Option, none, some, List, map}
use sharepaste.Map.{Map, StringSet, get, keys, set_of, set_all, empty, entries, get-empty}
use sharepaste.Map.Rebuild.{get-rebuilt, get-rebuilt-Keyed, get-rebuilt_mapped, has-set_of-keys}
use sharepaste.Types.{Device, GroupState, Store}
use sharepaste.Env.{Env}
use sharepaste.Store.Sound.{lists}
use sharepaste.Store.Snapshot.{snapshot_of, from_snapshot}
use sharepaste.Store.Calls.{Call, boot, serve}
use sharepaste.Store.Keeps.Joins.{FreshIds}
use sharepaste.Store.Keeps.Histories.{serve-Inv, boot-Inv}

-- What a restart makes of a store.
abbrev pub restarted : Store → Store
restarted s = from_snapshot (some (snapshot_of s))

lists-rebuilt :
    (k : String) (o : Option StringSet) → lists k (Option.map (λ v. set_of (keys v)) o) ≡ lists k o
lists-rebuilt k none = refl
lists-rebuilt k (some s) = has-set_of-keys k s

sets-restored :
    (m : Map StringSet) (g k : String)
    → lists k (
        get g (
          set_all empty (
            map
              (λ (e : String × List String). (e.0, set_of e.1))
              (map (λ (e : String × StringSet). (e.0, keys e.1)) (entries m)))))
      ≡ lists k (get g m)
sets-restored m g k =
    rw (get-rebuilt_mapped {V = StringSet} keys set_of g m) (lists-rebuilt k (get g m))

module _ {env : Env} (ids : FreshIds env) (fuel : ℕ) where
  -- After any calls on a new store, a restart from its snapshot has each device, each group, the
  -- members of each group, each offline queue and the items that each group has seen; it has no
  -- stream. Premise: `nanoid` makes no identifier twice.
  pub served_store_restarts :
      (cs : List Call)
      → let s = (serve env fuel boot cs).store in
        (k g : String)
        → (get k (restarted s).devices ≡ get k s.devices)
          × (get g (restarted s).groups ≡ get g s.groups)
          × (lists k (get g (restarted s).group_devices) ≡ lists k (get g s.group_devices))
          × (get k (restarted s).offline ≡ get k s.offline)
          × (lists k (get g (restarted s).seen_items) ≡ lists k (get g s.seen_items))
          × (get k (restarted s).presences ≡ none)
  unfolding snapshot_of from_snapshot
  served_store_restarts cs k g =
      let w = serve env fuel boot cs in
      let v = serve-Inv ids fuel boot cs (boot-Inv env) in
      (
        get-rebuilt-Keyed (λ (d : Device). d.device_id) w.devices v.device_key k,
        get-rebuilt-Keyed (λ (s : GroupState). s.group_id) w.groups v.group_key g,
        sets-restored w.group_devices g k,
        get-rebuilt k w.offline,
        sets-restored w.seen_items g k,
        get-empty k,
      )
