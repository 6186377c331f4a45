-- ===== src/Client/History/Latest.antt =====
-- Runs of pushes (packages/client-core/src/core/history-store.ts).
use sharepaste.Prelude.{ℕ, zero, suc, ◌≤◌, ◌≡◌, refl, List, [], ◌∷◌, arith, length, take}
use sharepaste.Client.Types.{ClipboardPayload}
use sharepaste.Client.History.{HistoryStore, new_history, push}

-- The history after the pushes, of which the latest stands first.
unfoldable pub history_of : ℕ → List ClipboardPayload → HistoryStore
unfolding push new_history
history_of capacity [] = new_history capacity
history_of capacity (p ∷ ps) = push p (history_of capacity ps)

take-take : {A : Type 0} (n : ℕ) (xs : List A) → take n (take n xs) ≡ take n xs
take-take zero xs = refl
take-take (suc n) [] = refl
take-take (suc n) (x ∷ xs) = ground (arith, take-take n xs)

take-cons : {A : Type 0} (n : ℕ) (x : A) (xs : List A) → take n (x ∷ take n xs) ≡ take n (x ∷ xs)
take-cons zero x xs = refl
take-cons (suc zero) x xs = refl
take-cons (suc (suc n)) x [] = refl
take-cons (suc (suc n)) x (y ∷ ys) = ground (arith, take-cons (suc n) y ys)

take-short : {A : Type 0} (n : ℕ) (xs : List A) → length xs ≤ n → take n xs ≡ xs
take-short zero [] h = refl
take-short zero (x ∷ xs) h = ground arith
take-short (suc n) [] h = refl
take-short (suc n) (x ∷ xs) h = ground (arith, take-short n xs)

cap-history_of : (n : ℕ) (ps : List ClipboardPayload) → (history_of n ps).cap ≡ n
unfolding history_of push new_history
cap-history_of n [] = refl
cap-history_of n (p ∷ ps) = cap-history_of n ps

-- After any pushes, the history of a store with the capacity `n` is the latest `n` of the items,
-- the latest first.
pub history_of-latest : (n : ℕ) (ps : List ClipboardPayload) → (history_of n ps).items ≡ take n ps
unfolding history_of push new_history
history_of-latest zero [] = refl
history_of-latest (suc n) [] = refl
history_of-latest n (p ∷ ps) = ground (
  arith,
  history_of-latest n ps,
  cap-history_of n ps,
  take-cons n p ps,
  take-short n (p ∷ take n ps),
)
