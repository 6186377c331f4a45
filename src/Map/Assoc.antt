-- ===== src/Map/Assoc.antt =====
-- The representation: an association list whose keys are distinct.
use mathlib.Core.Option
use sharepaste.Prelude.{
  String, ◌≡◌, refl, Bool, true, false, Option, none, some, List, [], ◌∷◌, ◌++◌, arith, ◌==◌,
  eq_iff, if◌then◌else◌, is_some, length, ◌≤◌, suc, ◌<◌,
}

abbrev pub Assoc {ℓ} : Type ℓ → Type ℓ
Assoc V = List (String × V)

module _ {ℓ} {V : Type ℓ} where
  unfoldable pub lookup : String → Assoc V → Option V
  lookup k [] = none
  lookup k ((j, v) ∷ m) = if j == k then some v else lookup k m

  abbrev pub Distinct : Assoc V → Type 0
  Distinct [] = Unit
  Distinct ((k, v) ∷ m) = (is_some (lookup k m) ≡ false) × Distinct m

  unfoldable pub put : String → V → Assoc V → Assoc V
  put k v [] = (k, v) ∷ []
  put k v ((j, w) ∷ m) = if j == k then (j, v) ∷ m else (j, w) ∷ put k v m

  unfoldable pub without : String → Assoc V → Assoc V
  without k [] = []
  without k ((j, w) ∷ m) = let rest = without k m in if j == k then rest else (j, w) ∷ rest

  unfoldable pub sieve : (V → Bool) → Assoc V → Assoc V
  sieve p [] = []
  sieve p ((j, w) ∷ m) = let rest = sieve p m in if p w then rest else (j, w) ∷ rest

  pub lookup-put :
      (k j : String) (v : V) (m : Assoc V)
      → lookup j (put k v m) ≡ (if k == j then some v else lookup j m)
  unfolding lookup put
  lookup-put k j v [] = refl
  lookup-put k j v ((i, w) ∷ m) =
      ground (arith, eq_iff k j, eq_iff i k, eq_iff i j, lookup-put k j v m)

  pub lookup-without :
      (k j : String) (m : Assoc V) → lookup j (without k m) ≡ (if k == j then none else lookup j m)
  unfolding lookup without
  lookup-without k j [] = ground arith
  lookup-without k j ((i, w) ∷ m) =
      ground (arith, lookup-without k j m, eq_iff i k, eq_iff i j, eq_iff k j)

  lookup_sieved :
      (p : V → Bool) (k : String) (m : Assoc V)
      → is_some (lookup k m) ≡ false
      → is_some (lookup k (sieve p m)) ≡ false
  unfolding lookup sieve
  lookup_sieved p k [] h = refl
  lookup_sieved p k ((i, w) ∷ m) h = ground (arith, lookup_sieved p k m)

  pub put-Distinct : (k : String) (v : V) (m : Assoc V) → Distinct m → Distinct (put k v m)
  unfolding lookup put
  put-Distinct k v [] d = (refl, tt)
  put-Distinct k v ((i, w) ∷ m) d =
      ground (arith, lookup-put k i v m, eq_iff i k, eq_iff k i, put-Distinct k v m d.1)

  pub without-Distinct : (k : String) (m : Assoc V) → Distinct m → Distinct (without k m)
  unfolding lookup without
  without-Distinct k [] d = tt
  without-Distinct k ((i, w) ∷ m) d = ground (arith, lookup-without k i m, without-Distinct k m d.1)

  pub sieve-Distinct : (p : V → Bool) (m : Assoc V) → Distinct m → Distinct (sieve p m)
  unfolding sieve
  sieve-Distinct p [] d = tt
  sieve-Distinct p ((i, w) ∷ m) d = ground (arith, lookup_sieved p i m d.0, sieve-Distinct p m d.1)

  abbrev pub unless : (V → Bool) → Option V → Option V
  unless p none = none
  unless p (some v) = if p v then none else some v

  pub lookup-sieve :
      (p : V → Bool) (k : String) (m : Assoc V)
      → Distinct m
      → lookup k (sieve p m) ≡ unless p (lookup k m)
  unfolding lookup sieve
  lookup-sieve p k [] d = refl
  lookup-sieve p k ((i, w) ∷ m) d = ground (arith, eq_iff i k, lookup-sieve p k m d.1, d.0)

  -- The same keys, other values.
  unfoldable pub alter : (V → V) → Assoc V → Assoc V
  alter f [] = []
  alter f ((j, w) ∷ m) = (j, f w) ∷ alter f m

  pub lookup-alter :
      (f : V → V) (k : String) (m : Assoc V) → lookup k (alter f m) ≡ Option.map f (lookup k m)
  unfolding lookup alter
  lookup-alter f k [] = refl
  lookup-alter f k ((i, w) ∷ m) = ground (arith, lookup-alter f k m)

  pub alter-Distinct : (f : V → V) (m : Assoc V) → Distinct m → Distinct (alter f m)
  unfolding alter
  alter-Distinct f [] d = tt
  alter-Distinct f ((i, w) ∷ m) d = ground (arith, lookup-alter f i m, alter-Distinct f m d.1)

  pub length-put :
      (k : String) (v : V) (m : Assoc V)
      → length (put k v m) ≡ (if is_some (lookup k m) then length m else suc (length m))
  unfolding lookup put
  length-put k v [] = refl
  length-put k v ((i, w) ∷ m) = ground (arith, length-put k v m)

  pub length-without-le : (k : String) (m : Assoc V) → length (without k m) ≤ length m
  unfolding without
  length-without-le k [] = omega arith
  length-without-le k ((i, w) ∷ m) = ground (arith, length-without-le k m)

  -- A key that is there is taken out.
  pub length-without-lt :
      (k : String) (m : Assoc V) → is_some (lookup k m) ≡ true → length (without k m) < length m
  unfolding lookup without
  length-without-lt k [] h = cc
  length-without-lt k ((i, w) ∷ m) h = ground (arith, length-without-lt k m, length-without-le k m)

  -- Entries that are put one after another, each under a new key, stay in their order.
  put-fresh :
      (k : String) (v : V) (m : Assoc V)
      → is_some (lookup k m) ≡ false
      → put k v m ≡ m ++ (k, v) ∷ []
  unfolding lookup put
  put-fresh k v [] h = refl
  put-fresh k v ((i, w) ∷ m) h = ground (arith, put-fresh k v m)
