-- ===== src/Client/Watcher/Changes.antt =====
-- Runs of polls (apps/client-cli/src/adapters/clipboard-watcher.ts).
use sharepaste.Prelude.{
  ◌≡◌, refl, String, false, List, [], ◌∷◌, arith, ◌==◌, eq_refl, if◌then◌else◌,
}
use sharepaste.Client.Watcher.{Watcher, start, poll_once, write_text, polls, new_watcher}

-- The texts that differ from the one before.
abbrev pub changes : String → List String → List String
changes latest [] = []
changes latest (next ∷ rest) =
    if next == latest then changes latest rest else next ∷ changes next rest

polls-changes_lem :
    (texts : List String) (w : Watcher)
    → w.suppress_next ≡ false
    → polls texts w ≡ changes w.latest texts
unfolding polls poll_once
polls-changes_lem [] w h = refl
polls-changes_lem (next ∷ rest) w h =
    ground (arith, polls-changes_lem rest w, polls-changes_lem rest (record w { latest = next }))

-- A watcher that is started on a text, and through which nothing is written, reports each change
-- of the clipboard once and nothing else.
pub started-reports_changes :
    (read : String) (texts : List String)
    → polls texts (start read new_watcher) ≡ changes read texts
unfolding start
started-reports_changes read texts = polls-changes_lem texts (start read new_watcher) refl

-- After a text was written through the watcher, the next text that the user copies is not
-- reported, if a poll has seen the written one first.
pub write_text-swallows :
    (w : Watcher) (value next : String)
    → (next == value) ≡ false
    → polls (value ∷ next ∷ []) (write_text value w) ≡ []
unfolding polls poll_once write_text
write_text-swallows w value next h = ground (arith, eq_refl value)
