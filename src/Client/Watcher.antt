-- ===== src/Client/Watcher.antt =====
-- apps/client-cli/src/adapters/clipboard-watcher.ts. The clipboard's text is an argument of each
-- poll; `running` stands for the timer. Polls run one after the other: the timer's callback, which
-- skips a poll while another is in flight, is not modelled.
pub mod Changes
use sharepaste.Prelude.{
  String, Bool, true, false, Option, none, some, List, [], ◌∷◌, ◌==◌, if◌then◌else◌,
}

pub record Watcher : Type 0 where
  pub running : Bool
  pub latest : String
  pub suppress_next : Bool
  pub poll_in_flight : Bool

abbrev pub new_watcher : Watcher
new_watcher = record { running = false; latest = ""; suppress_next = false; poll_in_flight = false }

unfoldable pub start : String → Watcher → Watcher
start read w = record w { latest = read; poll_in_flight = false; running = true }

-- The state after the poll, and the change that `onChange` is given.
unfoldable pub poll_once : String → Watcher → Watcher × Option String
poll_once next w =
    if next == w.latest
    then (w, none)
    else if w.suppress_next
    then (record w { latest = next; suppress_next = false }, none)
    else (record w { latest = next }, some next)

unfoldable pub stop : Watcher → Watcher
stop w = record w { running = false; poll_in_flight = false }

-- The clipboard that is written, and the watcher.
unfoldable pub write_text : String → Watcher → Watcher
write_text value w = record w { suppress_next = true; latest = value }

-- The changes that are reported while the clipboard goes through the texts.
unfoldable pub polls : List String → Watcher → List String
polls [] w = []
polls (next ∷ rest) w =
    let (w', reported) = poll_once next w in
    elim reported [ none ↦ polls rest w' | some text ↦ text ∷ polls rest w' ]
