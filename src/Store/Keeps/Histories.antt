-- ===== src/Store/Keeps/Histories.antt =====
-- Histories of calls from an empty store.
use sharepaste.Prelude.{ℕ, ◌≤◌, ◌≡◌, String, false, List, [], ◌∷◌, some, arith, ◌&&◌, ◌==◌, eq_iff}
use sharepaste.Map.{get, get-empty, StringSet}
use sharepaste.Types.{Device, GroupState}
use sharepaste.Env.{Env}
use sharepaste.Exec.{World, Exec, ◌>>=◌, pure}
use sharepaste.Store.Common.{count_of, max_devices_per_group}
use sharepaste.Store.Calls.{
  Call, registers, recovers, asks_context, asks_devices, asks_policy, creates_code, renames,
  removes, acks, requests_bind, confirms, updates_policy, pushes, fetches, opens, closes, perform,
  boot, serve,
}
use sharepaste.Store.Sound.{Inv, lists}
use sharepaste.Store.Keeps.Joins.{FreshIds}
use sharepaste.Store.Keeps.Rules.{Safe, Yields-pure, Yields-bind, faults}
use sharepaste.Store.Keeps.Devices.{
  register_device-Safe, recover_group-Safe, get_device_context-Safe, list_devices-Safe,
  rename_device-Safe, remove_device-Safe,
}
use sharepaste.Store.Keeps.Pairing.{create_bind_code-Safe, request_bind-Safe, confirm_bind-Safe}
use sharepaste.Store.Keeps.Policies.{get_policy-Yields, update_policy-Safe}
use sharepaste.Store.Keeps.Clipboard.{
  push_clipboard_item-Safe, ack_item-Safe, fetch_offline-Safe, open_presence-Safe,
  close_presence-Safe,
}

pub boot-Inv : (env : Env) → Inv env boot
boot-Inv env = record {
  device_key = λ k d e. ground (arith, get-empty {V = Device} k);
  group_key = λ g s e. ground (arith, get-empty {V = GroupState} g);
  device_group = λ k d e. ground (arith, get-empty {V = Device} k);
  group_members = λ g e. ground (arith, get-empty {V = GroupState} g);
  group_seen = λ g e. ground (arith, get-empty {V = GroupState} g);
  member_lives = λ g k e. ground (arith, get-empty {V = StringSet} g);
  device_listed = λ k d e a. ground (arith, get-empty {V = Device} k);
  capacity = λ g. ground (arith, get-empty {V = StringSet} g);
  fresh_device = λ n h. get-empty _;
  fresh_group = λ n h. get-empty _;
}

pub membership :
    {env : Env} (w : World)
    → Inv env w
    → (k g : String) (d : Device) → get k w.devices ≡ some d
    → lists k (get g w.group_devices) ≡ (d.active && d.group_id == g)
membership w v k g d e =
    ground (arith, v.member_lives g k, v.device_listed k d, eq_iff d.group_id g)

forget-Safe :
    {env : Env} {A : Type 0} (m : Exec A) (w : World)
    → Safe env (m w)
    → Safe env ((m >>= λ _. pure tt) w)
forget-Safe m w s = Yields-bind _ m w s λ a w' v' _. Yields-pure _ w' v' tt

module _ {env : Env} (ids : FreshIds env) (fuel : ℕ) where
  -- From a sound store, every call of the interface leaves a sound store, whether it returns or
  -- throws, and none dereferences a missing entry. Premise: `nanoid` makes no identifier twice.
  pub perform-Safe : (w : World) (c : Call) → Inv env w → Safe env (perform env fuel c w)
  unfolding perform
  perform-Safe w (registers input) v = forget-Safe _ w (register_device-Safe ids w v input)
  perform-Safe w (recovers name platform pubkey phrase) v =
      forget-Safe _ w (recover_group-Safe ids w v name platform pubkey phrase)
  perform-Safe w (asks_context id) v = forget-Safe _ w (get_device_context-Safe w v id)
  perform-Safe w (asks_devices id) v = forget-Safe _ w (list_devices-Safe w v id)
  perform-Safe w (asks_policy id) v = forget-Safe _ w (get_policy-Yields w v id (λ _. tt))
  perform-Safe w (creates_code id) v = forget-Safe _ w (create_bind_code-Safe w v fuel id)
  perform-Safe w (renames id name) v = forget-Safe _ w (rename_device-Safe w v id name)
  perform-Safe w (removes id target) v = forget-Safe _ w (remove_device-Safe w v id target)
  perform-Safe w (acks id item) v = forget-Safe _ w (ack_item-Safe w v id item)
  perform-Safe w (requests_bind code id) v = forget-Safe _ w (request_bind-Safe w v code id)
  perform-Safe w (confirms id issuer approve) v =
      forget-Safe _ w (confirm_bind-Safe w v id issuer approve)
  perform-Safe w (updates_policy id version patch) v =
      forget-Safe _ w (update_policy-Safe w v id version patch)
  perform-Safe w (pushes id item) v = forget-Safe _ w (push_clipboard_item-Safe w v id item)
  perform-Safe w (fetches id limit) v = forget-Safe _ w (fetch_offline-Safe w v id limit)
  perform-Safe w (opens id addr stream) v = open_presence-Safe w v id addr stream
  perform-Safe w (closes id) v = close_presence-Safe w v id

  pub serve-Inv : (w : World) (cs : List Call) → Inv env w → Inv env (serve env fuel w cs)
  unfolding serve
  serve-Inv w [] v = v
  serve-Inv w (c ∷ cs) v = serve-Inv (perform env fuel c w).1 cs (perform-Safe w c v).sound

  -- After any calls on a new store, no call dereferences a missing entry.
  -- Premise: `nanoid` makes no identifier twice.
  pub served_store_never_faults :
      (cs : List Call) (c : Call) → faults (perform env fuel c (serve env fuel boot cs)).0 ≡ false
  served_store_never_faults cs c = (perform-Safe _ c (serve-Inv boot cs (boot-Inv env))).no_fault

  -- After any calls on a new store, no group has more than ten devices.
  -- Premise: `nanoid` makes no identifier twice.
  pub served_group_size :
      (cs : List Call) (g : String)
      → count_of (get g (serve env fuel boot cs).group_devices) ≤ max_devices_per_group
  served_group_size cs g = (serve-Inv boot cs (boot-Inv env)).capacity g

  -- After any calls on a new store, an active device is listed by the group that it names and by
  -- no other, and a device that is not active by none.
  -- Premise: `nanoid` makes no identifier twice.
  pub served_membership :
      (cs : List Call) (k g : String) (d : Device)
      → get k (serve env fuel boot cs).devices ≡ some d
      → lists k (get g (serve env fuel boot cs).group_devices) ≡ (d.active && d.group_id == g)
  served_membership cs k g d e =
      membership (serve env fuel boot cs) (serve-Inv boot cs (boot-Inv env)) k g d e
