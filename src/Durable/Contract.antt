-- ===== src/Durable/Contract.antt =====
-- What `SharePasteStoreApi` promises of the durable store, call by call, in the words of the plain
-- store (apps/server/src/store/contracts.ts).
use sharepaste.Prelude.{ℕ, suc, ◌≡◌, String, Bool, true, false, Option, none, some}
use sharepaste.Env.{Env}
use sharepaste.Exec.{World, Result, Error, ok, err, rate_limited, storage_failed}
use sharepaste.Store.Snapshot.{export_snapshot}
use sharepaste.Store.Calls.{
  Call, asks_context, asks_devices, asks_policy, creates_code, requests_bind, fetches, opens,
  closes, perform,
}
use sharepaste.Durable.Interfaces.{RuntimeSignals}

-- So many calls of a device in a minute.
pub record Limit : Type 0 where
  pub device_id : String
  pub action : String
  pub max_per_minute : ℕ

abbrev pub limit_of : Call → Option Limit
limit_of (creates_code id) =
    some (record { device_id = id; action = "create_bind_code"; max_per_minute = 20 })
limit_of (requests_bind code id) =
    some (record { device_id = id; action = "request_bind"; max_per_minute = 30 })
limit_of _ = none

-- What follows a call of the plain store that returned.
pub data Upkeep : Type 0 where
  nothing saving auditing : Upkeep

abbrev pub upkeep_of : Call → Upkeep
upkeep_of (asks_context id) = nothing
upkeep_of (asks_devices id) = nothing
upkeep_of (asks_policy id) = nothing
upkeep_of (fetches id limit) = nothing
upkeep_of (opens id addr stream) = saving
upkeep_of (closes id) = saving
upkeep_of _ = auditing

abbrev pub is_saved : Upkeep → Bool
is_saved nothing = false
is_saved saving = true
is_saved auditing = true

abbrev pub exported_world : Env → World → World
exported_world env v = (export_snapshot env v).1

abbrev pub ticked : World → World
ticked v = record v { draws = suc v.draws }

module _ {R : Type 0} (runtime : RuntimeSignals R) where
  abbrev pub verdict : Limit → R → Option (Bool × R)
  verdict l signals = runtime.consume_rate_limit l.device_id l.action l.max_per_minute signals

  pub data Refused (c : Call) (signals : R) (r : Result (Unit {0})) : Type 0 where
    over :
        (l : Limit) (after_it : R)
        → limit_of c ≡ some l
        → verdict l signals ≡ some (false, after_it)
        → r ≡ err rate_limited
        → Refused c signals r
    unreachable :
        (l : Limit)
        → limit_of c ≡ some l
        → verdict l signals ≡ none
        → r ≡ err storage_failed
        → Refused c signals r

  pub data Admitted (c : Call) (signals : R) : Type 0 where
    unlimited : limit_of c ≡ none → Admitted c signals
    within :
        (l : Limit) (after_it : R)
        → limit_of c ≡ some l
        → verdict l signals ≡ some (true, after_it)
        → Admitted c signals

  -- From the world `w` the call ends with `r` in the world `u`.
  pub data Serves (env : Env) (fuel : ℕ) (c : Call) (signals : R) (w : World)
      (r : Result (Unit {0})) (u : World) : Type 0 where
    refused : Refused c signals r → u ≡ w → Serves env fuel c signals w r u
    throws :
        (e : Error)
        → Admitted c signals
        → perform env fuel c w ≡ (err e, u)
        → r ≡ err e
        → Serves env fuel c signals w r u
    reads :
        Admitted c signals
        → upkeep_of c ≡ nothing
        → perform env fuel c w ≡ (ok tt, u)
        → r ≡ ok tt
        → Serves env fuel c signals w r u
    saves :
        (v : World)
        → Admitted c signals
        → upkeep_of c ≡ saving
        → perform env fuel c w ≡ (ok tt, v)
        → r ≡ ok tt
        → u ≡ exported_world env v
        → Serves env fuel c signals w r u
    audits :
        (v : World)
        → Admitted c signals
        → upkeep_of c ≡ auditing
        → perform env fuel c w ≡ (ok tt, v)
        → r ≡ ok tt
        → u ≡ ticked (exported_world env v)
        → Serves env fuel c signals w r u
    unsaved :
        (v : World) (e : Error)
        → Admitted c signals
        → is_saved (upkeep_of c) ≡ true
        → perform env fuel c w ≡ (ok tt, v)
        → r ≡ err e
        → u ≡ exported_world env v
        → Serves env fuel c signals w r u
    unaudited :
        (v : World) (e : Error)
        → Admitted c signals
        → upkeep_of c ≡ auditing
        → perform env fuel c w ≡ (ok tt, v)
        → r ≡ err e
        → u ≡ ticked (exported_world env v)
        → Serves env fuel c signals w r u
