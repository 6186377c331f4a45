-- ===== src/Client/SharePaste/Connections.antt =====
-- The streams of the realtime loop: `runRealtimeLoop`, `connectOnce` and the start of
-- `stopRealtime` (apps/client-cli/src/core/sharepaste-client.ts). The streams are numbered in the
-- order in which they are opened; the loop was started once.
pub mod Waits
use sharepaste.Prelude.{
  ℕ, suc, ◌<◌, ◌≡◌, Bool, true, false, Option, none, some, nat_eq, if◌then◌else◌,
}

abbrev pub mark : ℕ → (ℕ → Bool) → ℕ → Bool
mark i marked j = if nat_eq i j then true else marked j

-- Where the loop is: at the test of its `while`, at the `await` of the promise of a stream, at the
-- `await` of `wait`, or at its end.
pub data Place : Type 0 where
  testing : Place
  waiting : ℕ → Place
  pausing finished : Place

-- `realtimeStream`, `realtimeStopRequested`, the streams whose promise has resolved, and those that
-- were cancelled.
pub record Connections : Type 0 where
  pub opened : ℕ
  pub current : Option ℕ
  pub resolved : ℕ → Bool
  pub cancelled : ℕ → Bool
  pub stop_requested : Bool
  pub place : Place

abbrev pub no_connections : Connections
no_connections = record {
  opened = 0;
  current = none;
  resolved = λ i. false;
  cancelled = λ i. false;
  stop_requested = false;
  place = testing;
}

unfoldable pub connect_once : Connections → Connections
connect_once l = record l {
  opened = suc l.opened;
  current = some l.opened;
  place = waiting l.opened;
}

-- if (!this.realtimeStopRequested) { await this.wait(2000); }
unfoldable pub resume : Connections → Connections
resume l = record l { place = if l.stop_requested then testing else pausing }

-- if (this.realtimeStream === stream) this.realtimeStream = null
abbrev pub unless_is : ℕ → Option ℕ → Option ℕ
unless_is i none = none
unless_is i (some j) = if nat_eq i j then none else some j

unfoldable pub clean_up : ℕ → Connections → Connections
clean_up i l =
    if l.resolved i
    then l
    else record l { resolved = mark i l.resolved; current = unless_is i l.current }

abbrev pub cancel : Option ℕ → (ℕ → Bool) → ℕ → Bool
cancel none cancelled = cancelled
cancel (some i) cancelled = mark i cancelled

unfoldable pub request_stop : Connections → Connections
request_stop l = record l {
  stop_requested = true;
  cancelled = cancel l.current l.cancelled;
  current = none;
}

-- A step of the loop (an `await` of a promise goes on once it has resolved), the end of a stream (an error, its end, its close, or a message whose handling
-- failed), or a stop.
pub data Step : Connections → Connections → Type 0 where
  connects :
      (l : Connections) → l.place ≡ testing → l.stop_requested ≡ false → Step l (connect_once l)
  leaves :
      (l : Connections)
      → l.place ≡ testing
      → l.stop_requested ≡ true
      → Step l (record l { place = finished })
  resumes :
      (l : Connections) (i : ℕ) → l.place ≡ waiting i → l.resolved i ≡ true → Step l (resume l)
  wakes : (l : Connections) → l.place ≡ pausing → Step l (record l { place = testing })
  ends : (l : Connections) (i : ℕ) → i < l.opened → Step l (clean_up i l)
  stops : (l : Connections) → Step l (request_stop l)

pub data Reached : Connections → Type 0 where
  starts : Reached no_connections
  then_step : (l l' : Connections) → Reached l → Step l l' → Reached l'
