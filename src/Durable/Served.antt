-- ===== src/Durable/Served.antt =====
-- What holds of the durable store after any calls (apps/server/src/store/
-- durable-sharepaste-store.ts).
use sharepaste.Durable.Refinement.{durable_serve-Reaches}
use sharepaste.Map.{get}
use sharepaste.Store.Snapshot.{export_snapshot, from_snapshot}
use sharepaste.Store.Common.{count_of, max_devices_per_group, cleanup_expired}
use sharepaste.Store.Sound.{Inv, lists}
use sharepaste.Store.Keeps.Joins.{FreshIds}
use sharepaste.Store.Keeps.Common.{cleanup_expired-Safe}
use sharepaste.Store.Keeps.Steps.{Sound-draw}
use sharepaste.Store.Keeps.Histories.{perform-Safe, boot-Inv, membership}
use sharepaste.Prelude.{ℕ, ◌≡◌, String, none, some, ◌≤◌, List, ◌&&◌, ◌==◌}
use sharepaste.Env.{Env}
use sharepaste.Exec.{World, ◌>>=◌}
use sharepaste.Store.Calls.{Call}
use sharepaste.Durable.Interfaces.{Persistence, RuntimeSignals}
use sharepaste.Durable.{create, Device}
use sharepaste.Durable.Calls.{Reaches, stays, calls, exports, ticks, durable_serve}

-- What holds between the calls of a plain store holds of each world that it reaches.
Reaches-Inv :
    {env : Env}
    → FreshIds env
    → (fuel : ℕ) {w v : World} → Inv env w
    → Reaches env fuel w v
    → Inv env v
unfolding export_snapshot cleanup_expired ◌>>=◌
Reaches-Inv ids fuel i stays = i
Reaches-Inv ids fuel i (calls v c r) = (perform-Safe ids fuel v c (Reaches-Inv ids fuel i r)).sound
Reaches-Inv ids fuel i (exports v r) = (cleanup_expired-Safe v (Reaches-Inv ids fuel i r)).sound
Reaches-Inv ids fuel i (ticks v r) = Sound-draw (Reaches-Inv ids fuel i r)

module _ {P R : Type 0} (env : Env) (persistence : Persistence P) (runtime : RuntimeSignals R)
    (fuel : ℕ) where
  -- After any calls on a durable store that started with nothing saved, whatever is saved and
  -- limited meanwhile: no group lists more than ten devices, and an active device is listed by the
  -- group that it names and by no other, a device that is not active by none. Premise: `nanoid`
  -- makes no identifier twice.
  pub durable_membership :
      FreshIds env
      → (p : P) (signals : R) → persistence.load_snapshot p ≡ none
      → (cs : List Call)
      → let w =
          (durable_serve env persistence runtime fuel (create persistence p signals) cs).inner in
        ((g : String) → count_of (get g w.group_devices) ≤ max_devices_per_group)
        × ((k g : String) (d : Device)
            → get k w.devices ≡ some d
            → lists k (get g w.group_devices) ≡ (d.active && d.group_id == g))
  unfolding create from_snapshot
  durable_membership ids p signals empty_at cs =
      let w =
        (durable_serve env persistence runtime fuel (create persistence p signals) cs).inner in
      let start : Inv env (create persistence p signals).inner = rw empty_at (boot-Inv env) in
      let v =
        Reaches-Inv ids fuel start
          (durable_serve-Reaches env persistence runtime fuel cs (create persistence p signals)) in
      (v.capacity, λ k g d e. membership w v k g d e)
