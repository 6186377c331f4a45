-- ===== src/Durable/Interfaces.antt =====
-- The interfaces of apps/server/src/store/contracts.ts that the durable store is given.
use sharepaste.Prelude.{ℕ, String, Bool, Option}
use sharepaste.Types.{SharePasteSnapshot, AuditRecord}

-- `SharePasteStatePersistence` on a state `P`; `none`: the write was rejected.
pub record Persistence (P : Type 0) : Type 0 where
  pub load_snapshot : P → Option SharePasteSnapshot
  pub save_snapshot : SharePasteSnapshot → P → Option P
  pub write_audit : AuditRecord → P → Option P

-- `SharePasteRuntimeSignals` on a state `R`. A failure of `touchPresence` or `clearPresence` is
-- caught, so only their effect is left.
pub record RuntimeSignals (R : Type 0) : Type 0 where
  pub touch_presence : String → Option String → R → R
  pub clear_presence : String → R → R
  pub consume_rate_limit : String → String → ℕ → R → Option (Bool × R)
