-- ===== src/SeenItems.antt =====
-- The bounded set of item identifiers, as `pushClipboardItem` keeps it for each group
-- (apps/server/src/store/sharepaste-store.ts) and `SyncEngine` for a device
-- (packages/client-core/src/core/sync-engine.ts).
pub mod Bounds
use sharepaste.Prelude.{ℕ, String, [], ◌∷◌, ltb, if◌then◌else◌, ◌==◌}
use sharepaste.Map.{StringSet, add, delete, keys, size}

abbrev pub seen_capacity : ℕ
seen_capacity = 1000

-- const [first] = seen; if (first) seen.delete(first)
unfoldable pub drop_first : StringSet → StringSet
drop_first seen = elim (keys seen) [
  | [] ↦ seen
  | first ∷ _ ↦ if first == "" then seen else delete first seen
]

-- seen.add(id); if (seen.size > 1000) …
unfoldable pub remember : String → StringSet → StringSet
remember id seen =
    let grown = add id seen in if ltb seen_capacity (size grown) then drop_first grown else grown
