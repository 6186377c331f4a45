-- ===== src/Map.antt =====
-- JavaScript's `Map<string, V>` and `Set<string>`: entries in the order of insertion, each key once.
-- `set` on a key that is there keeps its place. The representation is private: clients have
-- `map_laws`.
mod Assoc
pub mod Rebuild
use mathlib.Core.Option
use sharepaste.Prelude.{
  ℕ, suc, String, ◌≡◌, refl, Bool, true, false, Option, none, some, List, [], ◌∷◌, arith, ◌==◌,
  eq_iff, eq_refl, if◌then◌else◌, is_some, length, map, ◌≤◌, ◌<◌, Option-cases, inl, inr, includes,
  ◌++◌, length-map,
}
use Assoc.{
  Assoc as Entries, Distinct, lookup, put, without, sieve, alter, unless, put-Distinct,
  without-Distinct, sieve-Distinct, alter-Distinct, lookup-put, lookup-without, lookup-sieve,
  lookup-alter, length-put, length-without-le, length-without-lt,
}

pub record Map {ℓ} (V : Type ℓ) : Type ℓ where
  assoc : Entries V
  distinct : Distinct assoc

module _ {ℓ} {V : Type ℓ} where
  -- new Map()
  unfoldable pub empty : Map V
  empty = record { assoc = []; distinct = tt }

  -- m.get(k)
  unfoldable pub get : String → Map V → Option V
  unfolding lookup
  get k m = lookup k m.assoc

  -- m.has(k)
  abbrev pub has : String → Map V → Bool
  has k m = is_some (get k m)

  -- m.set(k, v)
  unfoldable pub set : String → V → Map V → Map V
  unfolding put
  set k v m = record { assoc = put k v m.assoc; distinct = put-Distinct k v m.assoc m.distinct }

  -- m.delete(k)
  unfoldable pub delete : String → Map V → Map V
  unfolding without
  delete k m = record {
    assoc = without k m.assoc;
    distinct = without-Distinct k m.assoc m.distinct;
  }

  -- for (const [k, v] of m.entries()) if (p(v)) m.delete(k)
  unfoldable pub delete_where : (V → Bool) → Map V → Map V
  unfolding sieve
  delete_where p m = record {
    assoc = sieve p m.assoc;
    distinct = sieve-Distinct p m.assoc m.distinct;
  }

  -- for (const [k, v] of m.entries()) m.set(k, f(v))
  unfoldable pub map_values : (V → V) → Map V → Map V
  unfolding alter
  map_values f m = record {
    assoc = alter f m.assoc;
    distinct = alter-Distinct f m.assoc m.distinct;
  }

  -- m.get(k)?.f(): a value that is there is mutated.
  unfoldable pub update : String → (V → V) → Map V → Map V
  update k f m = elim (get k m) [ none ↦ m | some v ↦ set k (f v) m ]

  -- [...m.entries()], [...m.keys()], [...m.values()] and m.size
  unfoldable pub entries : Map V → List (String × V)
  entries m = m.assoc

  unfoldable pub keys : Map V → List String
  keys m = map (λ e. e.0) m.assoc

  unfoldable pub values : Map V → List V
  values m = map (λ e. e.1) m.assoc

  unfoldable pub size : Map V → ℕ
  size m = length m.assoc

  -- for (const [k, v] of list) m.set(k, v)
  unfoldable pub set_all : Map V → List (String × V) → Map V
  set_all m [] = m
  set_all m ((k, v) ∷ rest) = set_all (set k v m) rest

  pub get-empty : (k : String) → get k empty ≡ none
  unfolding get empty
  get-empty k = refl

  pub get-set :
      (k j : String) (v : V) (m : Map V) → get j (set k v m) ≡ (if k == j then some v else get j m)
  unfolding get set
  get-set k j v m = lookup-put k j v m.assoc

  pub get-set_self : (k : String) (v : V) (m : Map V) → get k (set k v m) ≡ some v
  get-set_self k v m = rw (get-set k k v m, eq_refl k)

  pub get-delete :
      (k j : String) (m : Map V) → get j (delete k m) ≡ (if k == j then none else get j m)
  unfolding get delete
  get-delete k j m = lookup-without k j m.assoc

  pub get-delete_where :
      (p : V → Bool) (k : String) (m : Map V) → get k (delete_where p m) ≡ unless p (get k m)
  unfolding get delete_where
  get-delete_where p k m = lookup-sieve p k m.assoc m.distinct

  pub get-map_values :
      (f : V → V) (k : String) (m : Map V) → get k (map_values f m) ≡ Option.map f (get k m)
  unfolding get map_values
  get-map_values f k m = lookup-alter f k m.assoc

  pub get-update :
      (k j : String) (f : V → V) (m : Map V)
      → get j (update k f m) ≡ (if k == j then Option.map f (get j m) else get j m)
  unfolding update
  get-update k j f m = elim (Option-cases (get k m)) [
    | inl e ↦ rw (e, update) (ground (arith, eq_iff k j))
    | inr (v, e) ↦ rw (e, update) (ground (arith, get-set k j (f v) m, eq_iff k j))
  ]

  pub size-set :
      (k : String) (v : V) (m : Map V)
      → size (set k v m) ≡ (if has k m then size m else suc (size m))
  unfolding get set size
  size-set k v m = length-put k v m.assoc

  pub length-keys : (m : Map V) → length (keys m) ≡ size m
  unfolding keys size
  length-keys m = length-map (λ e. e.0) m.assoc

  pub size-delete-le : (k : String) (m : Map V) → size (delete k m) ≤ size m
  unfolding size delete
  size-delete-le k m = length-without-le k m.assoc

  pub size-delete-lt : (k : String) (m : Map V) → has k m ≡ true → size (delete k m) < size m
  unfolding get size delete
  size-delete-lt k m h = length-without-lt k m.assoc h

includes-keys_of {ℓ} :
    {V : Type ℓ} (k : String) (m : Entries V) → includes k (map (λ e. e.0) m) ≡ is_some (lookup k m)
unfolding lookup
includes-keys_of k [] = refl
includes-keys_of k ((j, v) ∷ m) = ground (arith, includes-keys_of k m)

pub includes-keys {ℓ} : {V : Type ℓ} (k : String) (m : Map V) → includes k (keys m) ≡ has k m
unfolding keys get
includes-keys k m = includes-keys_of k m.assoc

pub size-empty {ℓ} : (V : Type ℓ) → size (empty {V = V}) ≡ 0
unfolding size empty
size-empty V = refl

pub ruleset map_laws =
    (get-empty, get-set, get-delete, get-delete_where, get-map_values, get-update)

-- Set<string>
abbrev pub StringSet : Type 0
StringSet = Map (Unit {0})

-- s.add(k)
abbrev pub add : String → StringSet → StringSet
add k s = set k tt s

-- new Set(list)
unfoldable pub set_of : List String → StringSet
unfolding set_all
set_of ks = set_all empty (map (λ k. (k, tt)) ks)
