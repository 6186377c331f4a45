-- ===== src/Client/History.antt =====
-- packages/client-core/src/core/history-store.ts
pub mod Latest
use sharepaste.Prelude.{ℕ, List, [], ◌∷◌, ltb, length, take, if◌then◌else◌}
use sharepaste.Client.Types.{ClipboardPayload}

pub record HistoryStore : Type 0 where
  pub cap : ℕ
  pub items : List ClipboardPayload

unfoldable pub new_history : ℕ → HistoryStore
new_history capacity = record { cap = capacity; items = [] }

-- values.unshift(item), and values.length = cap where it is above
unfoldable pub push : ClipboardPayload → HistoryStore → HistoryStore
push item h =
    let grown = item ∷ h.items in
    record h { items = if ltb h.cap (length grown) then take h.cap grown else grown }
