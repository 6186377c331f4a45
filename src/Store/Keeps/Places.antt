-- ===== src/Store/Keeps/Places.antt =====
-- The members of the groups when a device moves from one to another, or leaves.
use mathlib.Core.Option
use sharepaste.Prelude.{
  suc, ◌≤◌, ◌≡◌, String, Bool, true, false, Option, none, some, arith, if◌then◌else◌, is_some, ◌==◌,
}
use sharepaste.Map.{
  Map, StringSet, get, has, delete, add, update, get-set, get-delete, get-update, size-set,
  size-delete-le,
}
use sharepaste.Store.Common.{count_of}
use sharepaste.Store.Sound.{lists}

abbrev pub moved : String → String → String → Map StringSet → Map StringSet
moved k old new members = update new (add k) (update old (delete k) members)

module _ (k : String) where
  -- What becomes of one group: `here` if the device joins it, `there` if the device leaves it.
  abbrev place : Bool → Bool → Option StringSet → Option StringSet
  place here there o =
      let rest : Option StringSet = if there then Option.map (delete k) o else o in
      if here then Option.map (add k) rest else rest

  pub lists-place :
      (j : String) (here there : Bool) (o : Option StringSet)
      → lists j (place here there o) ≡ (
          if k == j
          then (if here then is_some o else if there then false else lists j o)
          else lists j o)
  lists-place j true true none = ground arith
  lists-place j true true (some m) = ground (arith, get-set k j tt (delete k m), get-delete k j m)
  lists-place j true false none = ground arith
  lists-place j true false (some m) = ground (arith, get-set k j tt m)
  lists-place j false true none = ground arith
  lists-place j false true (some m) = ground (arith, get-delete k j m)
  lists-place j false false o = ground arith

  pub size-place-le :
      (here there : Bool) (o : Option StringSet)
      → count_of (place here there o) ≤ (if here then suc (count_of o) else count_of o)
  size-place-le true true none = omega arith
  size-place-le true true (some m) = ground (arith, size-set k tt (delete k m), size-delete-le k m)
  size-place-le true false none = omega arith
  size-place-le true false (some m) = ground (arith, size-set k tt m)
  size-place-le false true none = omega arith
  size-place-le false true (some m) = size-delete-le k m
  size-place-le false false o = omega arith

module _ (k old new : String) (members : Map StringSet) where
  pub has-moved : (q : String) → has q (moved k old new members) ≡ has q members
  has-moved q = ground (
    arith,
    get-update new q (add k) (update old (delete k) members),
    get-update old q (delete k) members,
  )

  pub get-moved :
      (q : String) → get q (moved k old new members) ≡ place k (new == q) (old == q) (get q members)
  get-moved q = rw (
    get-update new q (add k) (update old (delete k) members),
    get-update old q (delete k) members,
  )

  pub lists-moved :
      (q j : String)
      → lists j (get q (moved k old new members)) ≡ (
          if k == j
          then (if new == q
              then has q members
              else if old == q
              then false
              else lists j (get q members))
          else lists j (get q members))
  lists-moved q j = rw (get-moved q) (lists-place k j (new == q) (old == q) (get q members))

  pub size-moved-le :
      (q : String)
      → count_of (get q (moved k old new members))
        ≤ (if new == q then suc (count_of (get q members)) else count_of (get q members))
  size-moved-le q = rw (get-moved q) (size-place-le k (new == q) (old == q) (get q members))

module _ (k old : String) (members : Map StringSet) where
  pub lists-left :
      (q j : String)
      → lists j (get q (update old (delete k) members)) ≡ (
          if k == j
          then (if old == q then false else lists j (get q members))
          else lists j (get q members))
  lists-left q j =
      rw (get-update old q (delete k) members) (lists-place k j false (old == q) (get q members))

  pub size-left-le :
      (q : String) → count_of (get q (update old (delete k) members)) ≤ count_of (get q members)
  size-left-le q =
      rw (get-update old q (delete k) members) (size-place-le k false (old == q) (get q members))
