-- ===== src/Tests/ClientRuns.antt =====
-- The theorems on the client, the wire and the durable store at inputs that meet their hypotheses.
use sharepaste.Store.Common.{cleanup_expired, require_device, find_device}
use sharepaste.Prelude.{◌≤◌, ◌≡◌, refl, true, false, none, some, [], ◌∷◌, take, arith}
use sharepaste.Map.{get, set, empty, add, keys, size, size-empty}
use sharepaste.Exec.{Result, ◌>>=◌}
use sharepaste.Policy.{default_policy, is_item_allowed_by_policy}
use sharepaste.SeenItems.{remember, seen_capacity}
use sharepaste.SeenItems.Bounds.{size-remember-le, starts_empty}
use sharepaste.Store.Snapshot.{from_snapshot, snapshot_of, export_snapshot}
use sharepaste.Handlers.Items.{to_clipboard_item, from_clipboard_item}
use sharepaste.Handlers.Items.RoundTrip.{to_clipboard_item-from_clipboard_item}
use sharepaste.Handlers.Stream.{on_data, on_end}
use sharepaste.Handlers.Stream.Reconnects.{older_stream_ends, hello}
use sharepaste.Durable.{DurableStore, create, with_persist, run_inner, persist, audit_success}
use sharepaste.Durable.Infrastructure.{
  InMemoryState, in_memory_state, in_memory_persistence, noop_signals,
}
use sharepaste.Durable.Restarts.{Keeps, returned}
use sharepaste.Durable.Survival.{durable_perform-survives}
use sharepaste.Durable.Calls.{durable_perform}
use sharepaste.Store.Calls.{renames}
use sharepaste.Store.Devices.{rename_device}
use sharepaste.Client.PolicyEngine.{is_allowed_by_policy}
use sharepaste.Client.PolicyEngine.Agreement.{shared, is_allowed_by_policy-agrees}
use sharepaste.Client.SyncEngine.{new_engine}
use sharepaste.Client.SyncEngine.Duplicates.{applied, all_different, new_engine-applies_once}
use sharepaste.Client.History.Latest.{history_of, history_of-latest}
use sharepaste.Client.Session.{new_session, require_state, require_sync_engine}
use sharepaste.Client.Session.Coherence.{clears, session_after, coherent, session-coherent}
use sharepaste.Client.Watcher.{start, polls, new_watcher, write_text}
use sharepaste.Client.Watcher.Changes.{changes, started-reports_changes, write_text-swallows}
use sharepaste.Tests.Samples.{sample_env}
use sharepaste.Tests.Worlds.{office, phone, note, payload, office-phone}

named : starts_empty (keys (add "i" empty)) ≡ false
unfolding keys set empty
named = refl

size-remember-le_example : size (remember "i" empty) ≤ seen_capacity
size-remember-le_example = size-remember-le "i" empty (omega (arith, size-empty (Unit {0}))) named

new_engine-applies_once_example :
    all_different (applied (payload ∷ payload ∷ []) (new_engine "b")) ≡ true
new_engine-applies_once_example = new_engine-applies_once "b" (payload ∷ payload ∷ []) (omega arith)

history_of-latest_example :
    (history_of 1 (payload ∷ payload ∷ [])).items ≡ take 1 (payload ∷ payload ∷ [])
history_of-latest_example = history_of-latest 1 (payload ∷ payload ∷ [])

is_allowed_by_policy-agrees_example :
    is_allowed_by_policy (shared (default_policy "system" 0)) payload
    ≡ is_item_allowed_by_policy (default_policy "system" 0) payload.kind payload.size_bytes
is_allowed_by_policy-agrees_example =
    is_allowed_by_policy-agrees (default_policy "system" 0) payload

session-coherent_example :
    coherent
      (require_state (session_after (clears ∷ []) new_session))
      (require_sync_engine (session_after (clears ∷ []) new_session))
    ≡ true
session-coherent_example = session-coherent (clears ∷ [])

started-reports_changes_example :
    polls ("p" ∷ "p" ∷ "q" ∷ []) (start "o" new_watcher) ≡ changes "o" ("p" ∷ "p" ∷ "q" ∷ [])
started-reports_changes_example = started-reports_changes "o" ("p" ∷ "p" ∷ "q" ∷ [])

write_text-swallows_example : polls ("p" ∷ "q" ∷ []) (write_text "p" (start "o" new_watcher)) ≡ []
write_text-swallows_example = write_text-swallows (start "o" new_watcher) "p" "q" refl

to_clipboard_item-from_clipboard_item_example : to_clipboard_item (from_clipboard_item note) ≡ note
to_clipboard_item-from_clipboard_item_example = to_clipboard_item-from_clipboard_item note

older_stream_ends_example :
    let newer =
      on_data sample_env 2 (hello "b" none none) (record { connected = none; world = office }) in
    (get "b" newer.world.presences ≡ some (record { lan_addr = none; on_event = 2 }))
    × (newer.connected ≡ some "b")
    × (get "b" (on_end (record { connected = some "b"; world = newer.world })).world.presences
        ≡ none)
older_stream_ends_example =
    older_stream_ends sample_env "b" office phone office-phone refl refl 2 none none none

in_memory-Keeps : Keeps in_memory_persistence
in_memory-Keeps = record { saves = λ s p q e. ground arith; audits = λ a p q e. ground arith }

abbrev served : DurableStore InMemoryState (Unit {0})
served = record { inner = office; persisted = in_memory_state; signals = tt }

abbrev renamed : Result (Unit {0}) × DurableStore InMemoryState (Unit {0})
renamed =
    durable_perform sample_env in_memory_persistence noop_signals 3 (renames "b" "tablet") served

renaming_returns : returned sample_env in_memory_persistence noop_signals renamed.0 ≡ true
unfolding durable_perform with_persist run_inner persist audit_success rename_device ◌>>=◌
    export_snapshot cleanup_expired require_device find_device get set empty
renaming_returns = refl

durable_perform-survives_example :
    (create in_memory_persistence renamed.1.persisted tt).inner.store
    ≡ from_snapshot (some (snapshot_of renamed.1.inner.store))
durable_perform-survives_example =
    durable_perform-survives sample_env in_memory_persistence noop_signals in_memory-Keeps 3
      (renames "b" "tablet") served refl renaming_returns tt
