-- ===== src/Store/Behaviour/Outcomes.antt =====
-- What holds of the world after a method has returned, and after it has thrown: one rule for each
-- step of a method.
use sharepaste.Map.{Map, get}
use sharepaste.Prelude.{
  ℕ, suc, ◌≡◌, refl, String, Bool, true, false, ◌∷◌, if◌then◌else◌, Option, some, arith, sym, subst,
}
use sharepaste.Types.{Store, Device, PresenceEvent}
use sharepaste.Exec.{
  World, ok, err, Error, Result, Exec, ◌>>=◌, pure, raise, lift, gets, draw, modify, emit, continue,
  or_fail,
}
use sharepaste.Env.{Env}
use sharepaste.Store.Common.{cleanup_expired, find_device, require_device}

abbrev pub Ended : {A : Type 0} → (P Q : World → Type 0) → Result A → World → Type 0
Ended P Q (ok a) w = P w
Ended P Q (err e) w = Q w

-- `P` of the world after a return, `Q` after an error.
pub record Ends {A : Type 0} (P Q : World → Type 0) (r : Result A × World) : Type 0 where
  pub ended : Ended P Q r.0 r.1

module _ {A : Type 0} {P Q : World → Type 0} where
  pub Ends-pure : (a : A) (w : World) → P w → Ends P Q (pure a w)
  unfolding pure
  Ends-pure a w p = record { ended = p }

  pub Ends-raise : (e : Error) (w : World) → Q w → Ends {A = A} P Q (raise e w)
  unfolding raise
  Ends-raise e w q = record { ended = q }

  pub Ends-choose :
      (b : Bool) (m n : Exec A) (w : World)
      → (b ≡ true → Ends P Q (m w))
      → (b ≡ false → Ends P Q (n w))
      → Ends P Q ((if b then m else n) w)
  Ends-choose true m n w km kn = km refl
  Ends-choose false m n w km kn = kn refl

  pub Ends-weaken :
      (P' Q' : World → Type 0) (r : Result A × World)
      → ((w : World) → P' w → P w)
      → ((w : World) → Q' w → Q w)
      → Ends P' Q' r
      → Ends P Q r
  Ends-weaken P' Q' (ok a, w) p q h = record { ended = p w h.ended }
  Ends-weaken P' Q' (err e, w) p q h = record { ended = q w h.ended }

module _ {A B : Type 0} {P Q : World → Type 0} (f : A → Exec B) where
  Ends-continue :
      (P' : World → Type 0) (r : Result A × World)
      → Ends P' Q r
      → ((a : A) (w' : World) → P' w' → Ends P Q (f a w'))
      → Ends P Q (continue r.0 f r.1)
  unfolding continue
  Ends-continue P' (ok a, w') h k = k a w' h.ended
  Ends-continue P' (err e, w') h k = record { ended = h.ended }

  pub Ends-bind :
      (P' : World → Type 0) (m : Exec A) (w : World)
      → Ends P' Q (m w)
      → ((a : A) (w' : World) → P' w' → Ends P Q (f a w'))
      → Ends P Q ((m >>= f) w)
  unfolding ◌>>=◌
  Ends-bind P' m w h k = Ends-continue P' (m w) h k

  pub Ends-lift :
      (r : Result A) (w : World)
      → Q w
      → ((a : A) → r ≡ ok a → Ends P Q (f a w))
      → Ends P Q ((lift r >>= f) w)
  unfolding ◌>>=◌
  Ends-lift (ok a) w q k = k a refl
  Ends-lift (err e) w q k = record { ended = q }

  pub Ends-gets : (g : World → A) (w : World) → Ends P Q (f (g w) w) → Ends P Q ((gets g >>= f) w)
  unfolding ◌>>=◌
  Ends-gets g w k = k

  pub Ends-draw :
      (g : ℕ → A) (w : World)
      → Ends P Q (f (g w.draws) (record w { draws = suc w.draws }))
      → Ends P Q ((draw g >>= f) w)
  unfolding ◌>>=◌
  Ends-draw g w k = k

module _ {B : Type 0} {P Q : World → Type 0} where
  pub Ends-modify :
      (f : Unit {0} → Exec B) (g : Store → Store) (w : World)
      → Ends P Q (f tt (record w { store = g w.store }))
      → Ends P Q ((modify g >>= f) w)
  unfolding ◌>>=◌
  Ends-modify f g w k = k

  pub Ends-require :
      (f : Device → Exec B) (id : String) (w : World)
      → Q w
      → ((d : Device) → find_device id w.devices ≡ ok d → Ends P Q (f d w))
      → Ends P Q ((require_device id >>= f) w)
  unfolding ◌>>=◌ require_device
  Ends-require f id w q k = Ends-lift f (find_device id w.devices) w q k

module _ {P Q : World → Type 0} where
  pub Ends-modify_last :
      (g : Store → Store) (w : World) → P (record w { store = g w.store }) → Ends P Q (modify g w)
  unfolding modify
  Ends-modify_last g w p = record { ended = p }

  pub Ends-emit :
      (stream : ℕ) (event : PresenceEvent) (w : World)
      → P (record w { sent = (stream, event) ∷ w.sent })
      → Ends P Q (emit stream event w)
  unfolding emit
  Ends-emit stream event w p = record { ended = p }

  pub cleanup_Ends :
      (env : Env) (w : World) → P (cleanup_expired env w).1 → Ends P Q (cleanup_expired env w)
  unfolding cleanup_expired ◌>>=◌
  cleanup_Ends env w p = record { ended = p }

-- Nothing at all.
abbrev pub Whatever : World → Type 0
Whatever w = Unit

pub Ends-any : {A : Type 0} (r : Result A × World) → Ends Whatever Whatever r
Ends-any (ok a, w) = record { ended = tt }
Ends-any (err e, w) = record { ended = tt }

pub returned_Ends :
    {A : Type 0} {P : World → Type 0} (r : Result A × World) → P r.1 → Ends P Whatever r
returned_Ends (ok a, w) p = record { ended = p }
returned_Ends (err e, w) p = record { ended = tt }

pub or_fail-found :
    {A : Type 0} (o : Option A) (e : Error) (a b : A) → o ≡ some a → or_fail o e ≡ ok b → b ≡ a
unfolding or_fail
or_fail-found o e a b p q = ground (arith, p, q)

pub find_device-known :
    (id : String) (m : Map Device) (d d' : Device)
    → get id m ≡ some d
    → find_device id m ≡ ok d'
    → d' ≡ d
unfolding find_device
find_device-known id m d d' p q = ground (arith, p, q)

-- A device, or a value, that is known.
module _ {B : Type 0} {P : World → Type 0} where
  pub Ends-require_known :
      (f : Device → Exec B) (id : String) (w : World) (d : Device)
      → get id w.devices ≡ some d
      → Ends P Whatever (f d w)
      → Ends P Whatever ((require_device id >>= f) w)
  Ends-require_known f id w d known k = Ends-require f id w tt λ d' e.
      subst (λ x. Ends P Whatever (f x w)) (sym (find_device-known id w.devices d d' known e)) k

  pub Ends-found :
      {A : Type 0} (f : A → Exec B) (o : Option A) (e : Error) (w : World) (a : A)
      → o ≡ some a
      → Ends P Whatever (f a w)
      → Ends P Whatever ((lift (or_fail o e) >>= f) w)
  Ends-found f o e w a known k =
      Ends-lift f (or_fail o e) w tt
        λ a' q. subst (λ x. Ends P Whatever (f x w)) (sym (or_fail-found o e a a' known q)) k
