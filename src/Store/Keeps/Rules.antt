-- ===== src/Store/Keeps/Rules.antt =====
-- One rule for each step of a method: the store stays sound, no missing entry is dereferenced, and
-- a result that is returned has a property.
use sharepaste.Prelude.{
  ℕ, suc, ◌<◌, ◌≡◌, refl, inl, inr, String, Bool, true, false, Option, none, some, is_some, arith,
  Option-cases, if◌then◌else◌,
}
use sharepaste.Map.{get}
use sharepaste.Types.{Device, Store, PresenceEvent}
use sharepaste.Env.{Env}
use sharepaste.Exec.{
  Error, type_error, device_not_found, World, Exec, Result, ok, err, pure, raise, lift, gets, draw,
  modify, emit, guard, or_fail, continue, ◌>>=◌,
}
use sharepaste.Store.Common.{
  find_device, require_device, assert_group_capacity, count_of, max_devices_per_group,
}
use sharepaste.Store.Sound.{Inv}

abbrev pub is_type_error : Error → Bool
is_type_error type_error = true
is_type_error _ = false

abbrev pub faults : {A : Type 0} → Result A → Bool
faults (ok a) = false
faults (err e) = is_type_error e

-- `P` of what is returned.
abbrev pub Returned : {A : Type 0} → (A → World → Type 0) → Result A → World → Type 0
Returned P (ok a) w = P a w
Returned P (err e) w = Unit

abbrev pub Anything : {A : Type 0} → A → World → Type 0
Anything a w = Unit

-- The outcome of a step: a sound store, no `TypeError`, and `P` of the result.
pub record Yields (env : Env) {A : Type 0} (P : A → World → Type 0) (r : Result A × World)
    : Type 0 where
  pub sound : Inv env r.1
  pub no_fault : faults r.0 ≡ false
  pub returned : Returned P r.0 r.1

abbrev pub Safe : Env → {A : Type 0} → Result A × World → Type 0
Safe env r = Yields env Anything r

module _ {A : Type 0} {env : Env} {P : A → World → Type 0} where
  pub Yields-pure : (a : A) (w : World) → Inv env w → P a w → Yields env P (pure a w)
  unfolding pure
  Yields-pure a w v p = record { sound = v; no_fault = refl; returned = p }

  pub Yields-raise :
      (e : Error) (w : World) → Inv env w → is_type_error e ≡ false → Yields env P (raise e w)
  unfolding raise
  Yields-raise e w v h = record { sound = v; no_fault = h; returned = tt }

  pub Yields-if :
      (b : Bool) (m n : Exec A) (w : World)
      → (b ≡ true → Yields env P (m w))
      → (b ≡ false → Yields env P (n w))
      → Yields env P ((if b then m else n) w)
  Yields-if true m n w km kn = km refl
  Yields-if false m n w km kn = kn refl

module _ {A B : Type 0} {env : Env} {P : B → World → Type 0} (f : A → Exec B) where
  Yields-continue :
      (Q : A → World → Type 0) (r : Result A × World)
      → Yields env Q r
      → ((a : A) (w' : World) → Inv env w' → Q a w' → Yields env P (f a w'))
      → Yields env P (continue r.0 f r.1)
  unfolding continue
  Yields-continue Q (ok a, w') s k = k a w' s.sound s.returned
  Yields-continue Q (err e, w') s k = record {
    sound = s.sound;
    no_fault = s.no_fault;
    returned = tt;
  }

  -- A step, and then the rest of the method from any sound store in which the step may end.
  pub Yields-bind :
      {Q : A → World → Type 0} (m : Exec A) (w : World)
      → Yields env Q (m w)
      → ((a : A) (w' : World) → Inv env w' → Q a w' → Yields env P (f a w'))
      → Yields env P ((m >>= f) w)
  unfolding ◌>>=◌
  Yields-bind {Q} m w = Yields-continue Q (m w)

  pub Yields-gets :
      (g : World → A) (w : World) → Yields env P (f (g w) w) → Yields env P ((gets g >>= f) w)
  unfolding ◌>>=◌
  Yields-gets g w s = s

  pub Yields-draw :
      (g : ℕ → A) (w : World)
      → Yields env P (f (g w.draws) (record w { draws = suc w.draws }))
      → Yields env P ((draw g >>= f) w)
  unfolding ◌>>=◌
  Yields-draw g w s = s

  pub Yields-or_fail :
      (o : Option A) (e : Error) (w : World)
      → Inv env w
      → is_type_error e ≡ false
      → ((a : A) → o ≡ some a → Yields env P (f a w))
      → Yields env P ((lift (or_fail o e) >>= f) w)
  unfolding ◌>>=◌
  Yields-or_fail none e w v h k = record { sound = v; no_fault = h; returned = tt }
  Yields-or_fail (some a) e w v h k = k a refl

  pub Yields-demand :
      (o : Option A) (w : World)
      → is_some o ≡ true
      → ((a : A) → o ≡ some a → Yields env P (f a w))
      → Yields env P ((lift (or_fail o type_error) >>= f) w)
  unfolding ◌>>=◌
  Yields-demand none w h k = cc
  Yields-demand (some a) w h k = k a refl

module _ {B : Type 0} {env : Env} {P : B → World → Type 0} where
  pub Yields-modify :
      (f : Unit {0} → Exec B) (g : Store → Store) (w : World)
      → Yields env P (f tt (record w { store = g w.store }))
      → Yields env P ((modify g >>= f) w)
  unfolding ◌>>=◌
  Yields-modify f g w s = s

  pub Yields-guard :
      (f : Unit {0} → Exec B) (e : Error) (b : Bool) (w : World)
      → Inv env w
      → is_type_error e ≡ false
      → (b ≡ true → Yields env P (f tt w))
      → Yields env P ((lift (guard e b) >>= f) w)
  unfolding ◌>>=◌
  Yields-guard f e true w v h k = k refl
  Yields-guard f e false w v h k = record { sound = v; no_fault = h; returned = tt }

  Yields-if_active :
      (d : Device) (b : Bool) (f : Device → Exec B) (w : World)
      → Inv env w
      → (b ≡ true → Yields env P (f d w))
      → Yields env P (continue (if b then ok d else err device_not_found) f w)
  unfolding continue
  Yields-if_active d true f w v k = k refl
  Yields-if_active d false f w v k = record { sound = v; no_fault = refl; returned = tt }

  pub Yields-require :
      (f : Device → Exec B) (id : String) (w : World)
      → Inv env w
      → ((d : Device) → get id w.devices ≡ some d → d.active ≡ true → Yields env P (f d w))
      → Yields env P ((require_device id >>= f) w)
  unfolding require_device ◌>>=◌
  Yields-require f id w v k = elim (Option-cases (get id w.devices)) [
    | inl e ↦ rw (e, find_device) (record { sound = v; no_fault = refl; returned = tt })
    | inr (d, e) ↦ rw (e, find_device) (Yields-if_active d d.active f w v (k d e))
  ]

  pub Yields-capacity :
      (f : Unit {0} → Exec B) (g : String) (w : World)
      → Inv env w
      → (count_of (get g w.group_devices) < max_devices_per_group → Yields env P (f tt w))
      → Yields env P ((assert_group_capacity g >>= f) w)
  unfolding assert_group_capacity ◌>>=◌
  Yields-capacity f g w v k = Yields-guard f _ _ w v refl λ e. k (ground arith)

module _ {env : Env} where
  pub Yields-write :
      {P : Unit {0} → World → Type 0} (g : Store → Store) (w : World)
      → Inv env (record w { store = g w.store })
      → P tt (record w { store = g w.store })
      → Yields env P (modify g w)
  unfolding modify
  Yields-write g w v p = record { sound = v; no_fault = refl; returned = p }

  pub Safe-emit :
      (stream : ℕ) (event : PresenceEvent) (w : World) → Inv env w → Safe env (emit stream event w)
  unfolding emit
  Safe-emit stream event w v = record { sound = v; no_fault = refl; returned = tt }
