-- ===== src/Durable.antt =====
-- apps/server/src/store/durable-sharepaste-store.ts, over the interfaces of
-- apps/server/src/store/contracts.ts. One call runs to its end before the next begins.
pub mod Interfaces
pub mod Infrastructure
pub mod Restarts
pub mod Survival
pub mod Calls
pub mod Contract
pub mod Refinement
pub mod Served
use sharepaste.Prelude.{
  ℕ, suc, String, Bool, true, false, Option, none, some, List, ◌∷◌, ℤ, if◌then◌else◌,
}
use sharepaste.Types.{
  Store, Device, DeviceContext, Policy, PolicyPatch, BindCode, BindRequest, ClipboardItem,
  PushResult, RegisterDeviceInput, RegisterDeviceResult, SharePasteSnapshot, AuditRecord,
}
use Interfaces.{Persistence, RuntimeSignals}
use sharepaste.Env.{Env, now_unix}
use sharepaste.Exec.{World, Exec, Error, Result, ok, err, rate_limited, storage_failed}
use sharepaste.Store.Snapshot.{export_snapshot, from_snapshot}
use sharepaste.Store.Devices.{
  register_device, recover_group, get_device_context, list_devices, rename_device, remove_device,
}
use sharepaste.Store.Pairing.{create_bind_code, request_bind, confirm_bind}
use sharepaste.Store.PolicyUpdates.{get_policy, update_policy}
use sharepaste.Store.Clipboard.{
  push_clipboard_item, ack_item, fetch_offline, open_presence, close_presence,
}

pub record DurableStore (P R : Type 0) : Type 0 where
  pub inner : World
  pub persisted : P
  pub signals : R

abbrev pub create_bind_max_per_minute : ℕ
create_bind_max_per_minute = 20

abbrev pub request_bind_max_per_minute : ℕ
request_bind_max_per_minute = 30

-- `DurableSharePasteStore.create`
unfoldable pub create : {P R : Type 0} → Persistence P → P → R → DurableStore P R
create persistence persisted signals = record {
  inner = record {
    store = from_snapshot (persistence.load_snapshot persisted);
    draws = 0;
    sent = List.[];
  };
  persisted = persisted;
  signals = signals;
}

module _ {P R : Type 0} (env : Env) (persistence : Persistence P) (runtime : RuntimeSignals R) where
  abbrev Durable : Type 0 → Type 0
  Durable A = DurableStore P R → Result A × DurableStore P R

  abbrev saved : Option P → DurableStore P R → Result (Unit {0}) × DurableStore P R
  saved none d = (err storage_failed, d)
  saved (some p) d = (ok tt, record d { persisted = p })

  abbrev exported :
      Result SharePasteSnapshot → DurableStore P R → Result (Unit {0}) × DurableStore P R
  exported (err e) d = (err e, d)
  exported (ok snapshot) d = saved (persistence.save_snapshot snapshot d.persisted) d

  unfoldable pub persist : Durable (Unit {0})
  persist d =
      let (snapshot, w) = export_snapshot env d.inner in exported snapshot (record d { inner = w })

  unfoldable pub audit_success : String → Durable (Unit {0})
  audit_success action d =
      let w = d.inner in
      saved
        (persistence.write_audit
          (record { action = action; success = true; created_at_unix = now_unix env w.draws })
          d.persisted)
        (record d { inner = record w { draws = suc w.draws } })

  abbrev after :
      {A B : Type 0} → Result A × DurableStore P R → (A → Durable B) → Result B × DurableStore P R
  after (err e, d) f = (err e, d)
  after (ok a, d) f = f a d

  -- What an operation of the inner store returns, or throws, with nothing written.
  unfoldable pub run_inner : {A : Type 0} → Exec A → Durable A
  run_inner actor d = let (r, w) = actor d.inner in (r, record d { inner = w })

  unfoldable pub with_persist : {A : Type 0} → String → Exec A → Durable A
  unfolding run_inner persist audit_success
  with_persist action actor d = after (run_inner actor d) λ result d1.
      after (persist d1) λ _ d2. after (audit_success action d2) λ _ d3. (ok result, d3)

  abbrev limited_by : {A : Type 0} → Option (Bool × R) → Durable A → Durable A
  limited_by none m d = (err storage_failed, d)
  limited_by (some (allowed, r)) m d =
      if allowed then m (record d { signals = r }) else (err rate_limited, record d { signals = r })

  unfoldable pub with_rate_limit : {A : Type 0} → String → String → ℕ → Durable A → Durable A
  with_rate_limit device_id action max m d =
      limited_by (runtime.consume_rate_limit device_id action max d.signals) m d

  unfoldable pub durable_register_device : RegisterDeviceInput → Durable RegisterDeviceResult
  durable_register_device input = with_persist "register_device" (register_device env input)

  unfoldable pub durable_recover_group :
      String → String → String → String → Durable RegisterDeviceResult
  durable_recover_group name platform pubkey phrase =
      with_persist "recover_group" (recover_group env name platform pubkey phrase)

  unfoldable pub durable_get_device_context : String → Durable DeviceContext
  durable_get_device_context id = run_inner (get_device_context env id)

  unfoldable pub durable_list_devices : String → Durable (List Device)
  durable_list_devices id = run_inner (list_devices env id)

  unfoldable pub durable_rename_device : String → String → Durable Device
  durable_rename_device id name = with_persist "rename_device" (rename_device env id name)

  unfoldable pub durable_remove_device : String → String → Durable Bool
  durable_remove_device id target d =
      after (with_persist "remove_device" (remove_device env id target) d) λ removed d1. (
        ok removed,
        if removed then record d1 { signals = runtime.clear_presence target d1.signals } else d1,
      )

  unfoldable pub durable_create_bind_code : ℕ → String → Durable BindCode
  durable_create_bind_code fuel id =
      with_rate_limit id "create_bind_code" create_bind_max_per_minute
        (with_persist "create_bind_code" (create_bind_code env fuel id))

  unfoldable pub durable_request_bind : String → String → Durable BindRequest
  durable_request_bind code id =
      with_rate_limit id "request_bind" request_bind_max_per_minute
        (with_persist "request_bind" (request_bind env code id))

  unfoldable pub durable_confirm_bind : String → String → Bool → Durable BindRequest
  durable_confirm_bind request issuer approve =
      with_persist "confirm_bind" (confirm_bind env request issuer approve)

  unfoldable pub durable_get_policy : String → Durable Policy
  durable_get_policy id = run_inner (get_policy id)

  unfoldable pub durable_update_policy : String → ℤ → PolicyPatch → Durable Policy
  durable_update_policy id version patch =
      with_persist "update_policy" (update_policy env id version patch)

  unfoldable pub durable_push_clipboard_item : String → ClipboardItem → Durable PushResult
  durable_push_clipboard_item id item =
      with_persist "push_clipboard_item" (push_clipboard_item env id item)

  unfoldable pub durable_ack_item : String → String → Durable Bool
  durable_ack_item id item = with_persist "ack_item" (ack_item id item)

  unfoldable pub durable_fetch_offline : String → ℤ → Durable (List ClipboardItem)
  durable_fetch_offline id limit = run_inner (fetch_offline env id limit)

  unfoldable pub durable_open_presence : String → Option String → ℕ → Durable (Unit {0})
  durable_open_presence id addr stream d =
      after (run_inner (open_presence env id addr stream) d)
        λ _ d1. persist (record d1 { signals = runtime.touch_presence id addr d1.signals })

  unfoldable pub durable_close_presence : String → Durable (Unit {0})
  durable_close_presence id d =
      after (run_inner (close_presence id) d)
        λ _ d1. persist (record d1 { signals = runtime.clear_presence id d1.signals })
