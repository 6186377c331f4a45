-- ===== src/Tests/DurableRuns.antt =====
-- The theorems on calls of the durable store, and on the search for a bind code, at runs that meet
-- their hypotheses.
use sharepaste.Prelude.{
  ◌≡◌, ◌≤◌, refl, String, false, some, List, [], ◌∷◌, arith, ◌&&◌, ◌==◌, ◌<◌, ◌+◌,
}
use sharepaste.Map.{get, has, set, empty, delete_where}
use sharepaste.Types.{Device, BindCode}
use sharepaste.Env.{generate_bind_code, now_unix}
use sharepaste.Exec.{Result, ok, World, ◌>>=◌}
use sharepaste.Store.Common.{count_of, max_devices_per_group, cleanup_expired, find_device}
use sharepaste.Store.Pairing.{create_bind_code}
use sharepaste.Store.Sound.{lists}
use sharepaste.Store.Calls.{Call, registers, creates_code, removes}
use sharepaste.Store.Behaviour.CodeSearch.{create_bind_code_returns}
use sharepaste.Durable.{DurableStore, create}
use sharepaste.Durable.Infrastructure.{
  InMemoryState, in_memory_state, in_memory_persistence, noop_signals,
}
use sharepaste.Durable.Calls.{durable_perform, durable_serve}
use sharepaste.Durable.Served.{durable_membership}
use sharepaste.Tests.Samples.{sample_env, sample_env-FreshIds, laptop, tally}
use sharepaste.Tests.Worlds.{office, desk}

abbrev day : List Call
day = registers laptop ∷ creates_code "a" ∷ removes "a" "b" ∷ []

abbrev busy : DurableStore InMemoryState (Unit {0})
busy = record { inner = office; persisted = in_memory_state; signals = tt }

abbrev coded : Result (Unit {0}) × DurableStore InMemoryState (Unit {0})
coded = durable_perform sample_env in_memory_persistence noop_signals 3 (creates_code "a") busy

abbrev evening : World
evening =
    (durable_serve sample_env in_memory_persistence noop_signals 3
      (create in_memory_persistence in_memory_state tt) day).inner

durable_membership_example :
    ((g : String) → count_of (get g evening.group_devices) ≤ max_devices_per_group)
    × ((k g : String) (d : Device)
        → get k evening.devices ≡ some d
        → lists k (get g evening.group_devices) ≡ (d.active && d.group_id == g))
durable_membership_example =
    durable_membership sample_env in_memory_persistence noop_signals 3 sample_env-FreshIds
      in_memory_state tt refl day

abbrev cleaned : World
cleaned = (cleanup_expired sample_env office).1

desk_found : find_device "a" office.devices ≡ ok desk
unfolding find_device get set empty
desk_found = refl

low : cleaned.draws ≤ 2
unfolding cleanup_expired ◌>>=◌
low = omega arith

high : 2 < cleaned.draws + 3
unfolding cleanup_expired ◌>>=◌
high = omega arith

free : has (generate_bind_code sample_env 2) cleaned.bind_codes ≡ false
unfolding cleanup_expired ◌>>=◌ generate_bind_code get set empty delete_where now_unix tally
free = refl

-- The first code that is drawn is in use.
create_bind_code_returns_example :
    (found : BindCode) × ((create_bind_code sample_env 3 "a" office).0 ≡ ok found)
    × (has found.code cleaned.bind_codes ≡ false)
    × (get found.code (create_bind_code sample_env 3 "a" office).1.bind_codes ≡ some found)
create_bind_code_returns_example =
    create_bind_code_returns sample_env 3 "a" desk office 2 desk_found low high free
