-- ===== src/Durable/Infrastructure.antt =====
-- apps/server/src/infrastructure/noop.ts, and the rate limit and the keys of
-- apps/server/src/infrastructure/redis-runtime.ts over the commands of Redis.
use Prim.Native.String.{◌++◌}
use sharepaste.Prelude.{
  ℕ, String, Bool, true, Option, none, some, List, [], ◌∷◌, leb, nat_eq, if◌then◌else◌,
}
use sharepaste.Types.{SharePasteSnapshot, AuditRecord}
use sharepaste.Durable.Interfaces.{Persistence, RuntimeSignals}

-- `InMemoryStatePersistence`; the latest audit record stands first.
pub record InMemoryState : Type 0 where
  pub snapshot : Option SharePasteSnapshot
  pub audits : List AuditRecord

abbrev pub in_memory_state : InMemoryState
in_memory_state = record { snapshot = none; audits = [] }

abbrev pub in_memory_persistence : Persistence InMemoryState
in_memory_persistence = record {
  load_snapshot = λ p. p.snapshot;
  save_snapshot = λ snapshot p. some (record p { snapshot = some snapshot });
  write_audit = λ entry p. some (record p { audits = entry ∷ p.audits });
}

-- `NoopRuntimeSignals`
abbrev pub noop_signals : RuntimeSignals (Unit {0})
noop_signals = record {
  touch_presence = λ id addr r. r;
  clear_presence = λ id r. r;
  consume_rate_limit = λ id action max r. some (true, r);
}

-- The commands of Redis that the program sends, on a database `D`.
pub record Redis (D : Type 0) : Type 0 where
  pub incr : String → D → ℕ × D
  pub expire : String → ℕ → D → D
  pub set_ex : String → ℕ → Option String → D → D
  pub del : String → D → D

abbrev pub presence_ttl_seconds : ℕ
presence_ttl_seconds = 30

abbrev pub rate_limit_window_seconds : ℕ
rate_limit_window_seconds = 60

module _ {D : Type 0} (redis : Redis D) where
  abbrev presence_key : String → String
  presence_key id = "sharepaste:presence:" ++ id

  abbrev rate_limit_key : String → String → String
  rate_limit_key action id = "sharepaste:ratelimit:" ++ action ++ ":" ++ id

  unfoldable pub touch_presence : String → Option String → D → D
  touch_presence id addr d = redis.set_ex (presence_key id) presence_ttl_seconds addr d

  unfoldable pub clear_presence : String → D → D
  clear_presence id d = redis.del (presence_key id) d

  unfoldable pub consume_rate_limit : String → String → ℕ → D → Bool × D
  consume_rate_limit id action max_per_minute d =
      let (current, counted) = redis.incr (rate_limit_key action id) d in
      let limited : D =
        if nat_eq current 1
        then redis.expire (rate_limit_key action id) rate_limit_window_seconds counted
        else counted in
      (leb current max_per_minute, limited)
