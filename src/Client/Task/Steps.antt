-- ===== src/Client/Task/Steps.antt =====
-- Single steps of a method, where it is known what a port answers.
use sharepaste.Prelude.{◌≡◌, ap, String}
use sharepaste.Client.Task.{
  Client, Task, Outside, returned, thrown, asks, then_do, handled, catches, ◌>>=◌,
}

module _ {S A : Type 0} where
  pub bind_thrown :
      {B : Type 0} (m : Task S A) (f : A → Task S B) (s s' : S) (message : String)
      → m s ≡ (thrown message, s')
      → (m >>= f) s ≡ (thrown message, s')
  unfolding ◌>>=◌
  bind_thrown m f s s' message e = ap (λ r. then_do r.0 f r.1) e

  pub bind_returned :
      {B : Type 0} (m : Task S A) (f : A → Task S B) (s s' : S) (a : A)
      → m s ≡ (returned a, s')
      → (m >>= f) s ≡ f a s'
  unfolding ◌>>=◌
  bind_returned m f s s' a e = ap (λ r. then_do r.0 f r.1) e

  pub catches_thrown :
      (m : Task S A) (handler : String → Task S A) (s s' : S) (message : String)
      → m s ≡ (thrown message, s')
      → catches m handler s ≡ handler message s'
  unfolding catches handled
  catches_thrown m handler s s' message e = ap (λ r. handled r.0 handler r.1) e

module _ {X A : Type 0} (call : Outside X A) (c : Client X) (x : X) where
  pub asks_returned :
      (a : A)
      → call c.outside ≡ (returned a, x)
      → asks call c ≡ (returned a, record c { outside = x })
  unfolding asks
  asks_returned a e = ap (λ r. (r.0, record c { outside = r.1 })) e

  pub asks_thrown :
      (message : String)
      → call c.outside ≡ (thrown message, x)
      → asks call c ≡ (thrown message, record c { outside = x })
  unfolding asks
  asks_thrown message e = ap (λ r. (r.0, record c { outside = r.1 })) e
