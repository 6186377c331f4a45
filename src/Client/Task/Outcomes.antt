-- ===== src/Client/Task/Outcomes.antt =====
-- What holds of a state after a method of the client has returned, and after it has thrown: one rule
-- for each step of a method.
use sharepaste.Prelude.{◌≡◌, refl, String, Bool, true, false, if◌then◌else◌}
use sharepaste.Client.Task.{
  Client, Task, Outcome, Outside, returned, thrown, done, throw, settle, reads, asks, changes,
  then_do, handled, catches, ◌>>=◌,
}

abbrev pub Left : {S A : Type 0} → (P Q : S → Type 0) → Outcome A → S → Type 0
Left P Q (returned a) s = P s
Left P Q (thrown message) s = Q s

-- `P` of the state after a return, `Q` after an error.
pub record Leaves {S A : Type 0} (P Q : S → Type 0) (r : Outcome A × S) : Type 0 where
  pub left : Left P Q r.0 r.1

module _ {S A : Type 0} {P Q : S → Type 0} where
  pub Leaves-done : (a : A) (s : S) → P s → Leaves P Q (done a s)
  unfolding done
  Leaves-done a s p = record { left = p }

  pub Leaves-throw : (m : String) (s : S) → Q s → Leaves {A = A} P Q (throw m s)
  unfolding throw
  Leaves-throw m s q = record { left = q }

  pub Leaves-settle : (o : Outcome A) (s : S) → P s → Q s → Leaves P Q (settle o s)
  unfolding settle
  Leaves-settle (returned a) s p q = record { left = p }
  Leaves-settle (thrown m) s p q = record { left = q }

  pub Leaves-if :
      (b : Bool) (m n : Task S A) (s : S)
      → (b ≡ true → Leaves P Q (m s))
      → (b ≡ false → Leaves P Q (n s))
      → Leaves P Q ((if b then m else n) s)
  Leaves-if true m n s km kn = km refl
  Leaves-if false m n s km kn = kn refl

  Leaves-handled :
      (Q' : S → Type 0) (handler : String → Task S A) (r : Outcome A × S)
      → Leaves P Q' r
      → ((message : String) (s' : S) → Q' s' → Leaves P Q (handler message s'))
      → Leaves P Q (handled r.0 handler r.1)
  unfolding handled
  Leaves-handled Q' handler (returned a, s') h k = record { left = h.left }
  Leaves-handled Q' handler (thrown m, s') h k = k m s' h.left

  pub Leaves-catches :
      (Q' : S → Type 0) (m : Task S A) (handler : String → Task S A) (s : S)
      → Leaves P Q' (m s)
      → ((message : String) (s' : S) → Q' s' → Leaves P Q (handler message s'))
      → Leaves P Q (catches m handler s)
  unfolding catches
  Leaves-catches Q' m handler s h k = Leaves-handled Q' handler (m s) h k

  pub Leaves-weaken :
      (P' Q' : S → Type 0) (r : Outcome A × S)
      → ((s : S) → P' s → P s)
      → ((s : S) → Q' s → Q s)
      → Leaves P' Q' r
      → Leaves P Q r
  Leaves-weaken P' Q' (returned a, s) p q h = record { left = p s h.left }
  Leaves-weaken P' Q' (thrown m, s) p q h = record { left = q s h.left }

module _ {S A B : Type 0} {P Q : S → Type 0} (f : A → Task S B) where
  Leaves-then_do :
      (P' : S → Type 0) (r : Outcome A × S)
      → Leaves P' Q r
      → ((a : A) (s' : S) → P' s' → Leaves P Q (f a s'))
      → Leaves P Q (then_do r.0 f r.1)
  unfolding then_do
  Leaves-then_do P' (returned a, s') h k = k a s' h.left
  Leaves-then_do P' (thrown m, s') h k = record { left = h.left }

  pub Leaves-bind :
      (P' : S → Type 0) (m : Task S A) (s : S)
      → Leaves P' Q (m s)
      → ((a : A) (s' : S) → P' s' → Leaves P Q (f a s'))
      → Leaves P Q ((m >>= f) s)
  unfolding ◌>>=◌
  Leaves-bind P' m s h k = Leaves-then_do P' (m s) h k

  pub Leaves-reads : (g : S → A) (s : S) → Leaves P Q (f (g s) s) → Leaves P Q ((reads g >>= f) s)
  unfolding ◌>>=◌
  Leaves-reads g s k = k

  pub Leaves-lift :
      (o : Outcome A) (s : S)
      → Q s
      → ((a : A) → o ≡ returned a → Leaves P Q (f a s))
      → Leaves P Q ((settle o >>= f) s)
  unfolding ◌>>=◌
  Leaves-lift (returned a) s q k = k a refl
  Leaves-lift (thrown m) s q k = record { left = q }

module _ {S B : Type 0} {P Q : S → Type 0} where
  pub Leaves-changes :
      (f : Unit {0} → Task S B) (g : S → S) (s : S)
      → Leaves P Q (f tt (g s))
      → Leaves P Q ((changes g >>= f) s)
  unfolding ◌>>=◌
  Leaves-changes f g s k = k

module _ {S : Type 0} {P Q : S → Type 0} where
  pub Leaves-changes_last : (g : S → S) (s : S) → P (g s) → Leaves P Q (changes g s)
  unfolding changes
  Leaves-changes_last g s p = record { left = p }

-- A call of a port changes what is outside, whatever it is.
module _ {X A : Type 0} {P Q : Client X → Type 0} where
  asked :
      (c : Client X) (r : Outcome A × X)
      → ((x : X) → P (record c { outside = x }))
      → ((x : X) → Q (record c { outside = x }))
      → Leaves P Q (r.0, record c { outside = r.1 })
  asked c (returned a, x) p q = record { left = p x }
  asked c (thrown m, x) p q = record { left = q x }

  pub Leaves-asks :
      (call : Outside X A) (c : Client X)
      → ((x : X) → P (record c { outside = x }))
      → ((x : X) → Q (record c { outside = x }))
      → Leaves P Q (asks call c)
  unfolding asks
  Leaves-asks call c p q = asked c (call c.outside) p q
