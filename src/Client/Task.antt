-- ===== src/Client/Task.antt =====
-- Methods of the client: they change the client and what is outside it, and may throw. What was
-- done before a throw stays done.
pub mod Outcomes
pub mod Steps
use sharepaste.Prelude.{String, Bool, Option, none, some}
use sharepaste.Client.History.{HistoryStore}
use sharepaste.Client.Session.{ClientSession}

-- A value, or the message of the error that was thrown.
pub data Outcome (A : Type 0) : Type 0 where
  returned : A → Outcome A
  thrown : String → Outcome A

-- The fields of `SharePasteClient` that change: the session, the history, whether there is a
-- realtime loop and whether it was asked to stop; and the state of what the ports reach.
pub record Client (X : Type 0) : Type 0 where
  pub session : ClientSession
  pub history : HistoryStore
  pub realtime_loop : Bool
  pub stop_requested : Bool
  pub outside : X

-- A call of a port.
abbrev pub Outside : Type 0 → Type 0 → Type 0
Outside X A = X → Outcome A × X

abbrev pub Task : Type 0 → Type 0 → Type 0
Task S A = S → Outcome A × S

-- A missing value is the error.
unfoldable pub or_throw : {A : Type 0} → Option A → String → Outcome A
or_throw none message = thrown message
or_throw (some a) message = returned a

module _ {S A : Type 0} where
  unfoldable pub done : A → Task S A
  done a s = (returned a, s)

  unfoldable pub throw : String → Task S A
  throw message s = (thrown message, s)

  unfoldable pub settle : Outcome A → Task S A
  settle o s = (o, s)

  unfoldable pub reads : (S → A) → Task S A
  reads f s = (returned (f s), s)

unfoldable pub changes : {S : Type 0} → (S → S) → Task S (Unit {0})
changes f s = (returned tt, f s)

unfoldable pub asks : {X A : Type 0} → Outside X A → Task (Client X) A
asks call c = let (o, x) = call c.outside in (o, record c { outside = x })

module _ {S A B : Type 0} where
  unfoldable pub then_do : Outcome A → (A → Task S B) → Task S B
  then_do (returned a) f s = f a s
  then_do (thrown message) f s = (thrown message, s)

  infixl 10 ◌>>=◌ ◌>>◌
  -- To open this is to open all of the above.
  unfoldable pub ◌>>=◌ : Task S A → (A → Task S B) → Task S B
  unfolding then_do done throw settle or_throw reads asks changes
  ◌>>=◌ m f s = let r = m s in then_do r.0 f r.1

  abbrev pub ◌>>◌ : Task S A → Task S B → Task S B
  m >> n = m >>= λ _. n

module _ {S A : Type 0} where
  unfoldable pub handled : Outcome A → (String → Task S A) → Task S A
  handled (returned a) handler s = (returned a, s)
  handled (thrown message) handler s = handler message s

  -- try { … } catch (error) { … }
  unfoldable pub catches : Task S A → (String → Task S A) → Task S A
  unfolding handled
  catches m handler s = let r = m s in handled r.0 handler r.1
