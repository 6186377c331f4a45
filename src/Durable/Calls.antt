-- ===== src/Durable/Calls.antt =====
-- The calls of `SharePasteStoreApi` on the durable store (apps/server/src/store/
-- durable-sharepaste-store.ts), results forgotten, and the moves of the store inside it.
use sharepaste.Prelude.{ℕ, suc, List, [], ◌∷◌}
use sharepaste.Env.{Env}
use sharepaste.Exec.{World, Result, ok}
use sharepaste.Store.Snapshot.{export_snapshot}
use sharepaste.Store.Calls.{
  Call, registers, recovers, asks_context, asks_devices, asks_policy, creates_code, renames,
  removes, acks, requests_bind, confirms, updates_policy, pushes, fetches, opens, closes, perform,
}
use sharepaste.Durable.Interfaces.{Persistence, RuntimeSignals}
use sharepaste.Durable.{
  DurableStore, after, durable_register_device, durable_recover_group, durable_get_device_context,
  durable_list_devices, durable_rename_device, durable_remove_device, durable_create_bind_code,
  durable_request_bind, durable_confirm_bind, durable_get_policy, durable_update_policy,
  durable_push_clipboard_item, durable_ack_item, durable_fetch_offline, durable_open_presence,
  durable_close_presence,
}

-- What a plain store comes to by calls of its interface, exports of its snapshot, and readings of
-- the clock.
pub data Reaches (env : Env) (fuel : ℕ) (w : World) : World → Type 0 where
  stays : Reaches env fuel w w
  calls :
      (v : World) (c : Call) → Reaches env fuel w v → Reaches env fuel w (perform env fuel c v).1
  exports : (v : World) → Reaches env fuel w v → Reaches env fuel w (export_snapshot env v).1
  ticks : (v : World) → Reaches env fuel w v → Reaches env fuel w (record v { draws = suc v.draws })

module _ {P R : Type 0} (env : Env) (persistence : Persistence P) (runtime : RuntimeSignals R) where
  abbrev pub Acts : Type 0
  Acts = DurableStore P R → Result (Unit {0}) × DurableStore P R

  abbrev pub forgets :
      {A : Type 0} → Result A × DurableStore P R → Result (Unit {0}) × DurableStore P R
  forgets r = after env persistence runtime r λ _ d. (ok tt, d)

  unfoldable pub durable_perform : ℕ → Call → Acts
  unfolding durable_register_device durable_recover_group durable_get_device_context
      durable_list_devices durable_rename_device durable_remove_device durable_create_bind_code
      durable_request_bind durable_confirm_bind durable_get_policy durable_update_policy
      durable_push_clipboard_item durable_ack_item durable_fetch_offline durable_open_presence
      durable_close_presence
  durable_perform fuel (registers input) d =
      forgets (durable_register_device env persistence runtime input d)
  durable_perform fuel (recovers name platform pubkey phrase) d =
      forgets (durable_recover_group env persistence runtime name platform pubkey phrase d)
  durable_perform fuel (asks_context id) d =
      forgets (durable_get_device_context env persistence runtime id d)
  durable_perform fuel (asks_devices id) d =
      forgets (durable_list_devices env persistence runtime id d)
  durable_perform fuel (asks_policy id) d =
      forgets (durable_get_policy env persistence runtime id d)
  durable_perform fuel (creates_code id) d =
      forgets (durable_create_bind_code env persistence runtime fuel id d)
  durable_perform fuel (renames id name) d =
      forgets (durable_rename_device env persistence runtime id name d)
  durable_perform fuel (removes id target) d =
      forgets (durable_remove_device env persistence runtime id target d)
  durable_perform fuel (acks id item) d =
      forgets (durable_ack_item env persistence runtime id item d)
  durable_perform fuel (requests_bind code id) d =
      forgets (durable_request_bind env persistence runtime code id d)
  durable_perform fuel (confirms request id approve) d =
      forgets (durable_confirm_bind env persistence runtime request id approve d)
  durable_perform fuel (updates_policy id version patch) d =
      forgets (durable_update_policy env persistence runtime id version patch d)
  durable_perform fuel (pushes id item) d =
      forgets (durable_push_clipboard_item env persistence runtime id item d)
  durable_perform fuel (fetches id limit) d =
      forgets (durable_fetch_offline env persistence runtime id limit d)
  durable_perform fuel (opens id addr stream) d =
      durable_open_presence env persistence runtime id addr stream d
  durable_perform fuel (closes id) d = durable_close_presence env persistence runtime id d

  unfoldable pub durable_serve : ℕ → DurableStore P R → List Call → DurableStore P R
  unfolding durable_perform
  durable_serve fuel d [] = d
  durable_serve fuel d (c ∷ cs) = durable_serve fuel (durable_perform fuel c d).1 cs
