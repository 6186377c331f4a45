-- ===== src/Map/Rebuild.antt =====
-- Maps that are written out and read in again: `new Map([...m.entries()])`, and the loops that set
-- each value under its own key.
use mathlib.Core.Option
use sharepaste.Prelude.{
  String, ◌≡◌, refl, some, [], ◌∷◌, arith, eq_iff, eq_refl, if◌then◌else◌, is_some, map, ap,
}
use sharepaste.Map.Assoc.{Assoc, Distinct, lookup}
use sharepaste.Map.{
  Map, get, set, empty, entries, values, set_all, get-set, get-empty, set_of, keys, StringSet, has,
}

module _ {V : Type 0} where
  get-set_all :
      (j : String) (l : Assoc V) (m : Map V)
      → Distinct l
      → get j (set_all m l) ≡ (if is_some (lookup j l) then lookup j l else get j m)
  unfolding set_all lookup
  get-set_all j [] m d = refl
  get-set_all j ((k, v) ∷ l) m d =
      ground (arith, get-set_all j l (set k v m) d.1, get-set k j v m, eq_iff k j)

  pub get-rebuilt : (j : String) (m : Map V) → get j (set_all empty (entries m)) ≡ get j m
  unfolding entries get
  get-rebuilt j m = ground (arith, get-set_all j m.assoc empty m.distinct, get-empty {V = V} j)

  -- Each value is stored under its own key.
  abbrev pub Keyed : (V → String) → Map V → Type 0
  Keyed key m = (k : String) (v : V) → get k m ≡ some v → key v ≡ k

  keyed_entries :
      (key : V → String) (l : Assoc V)
      → Distinct l
      → ((k : String) (v : V) → lookup k l ≡ some v → key v ≡ k)
      → map (λ v. (key v, v)) (map (λ (e : String × V). e.1) l) ≡ l
  unfolding lookup
  keyed_entries key [] d h = refl
  keyed_entries key ((k, v) ∷ l) d h =
      let head : key v ≡ k = h k v (ground (arith, eq_refl k)) in
      let tail = keyed_entries key l d.1 λ j x e. h j x (ground (arith, eq_iff k j)) in
      cc (head, tail)

  pub get-rebuilt-Keyed :
      (key : V → String) (m : Map V)
      → Keyed key m
      → (j : String) → get j (set_all empty (map (λ v. (key v, v)) (values m))) ≡ get j m
  unfolding values get
  get-rebuilt-Keyed key m h j =
      rw (keyed_entries key m.assoc m.distinct h)
        (ground (arith, get-set_all j m.assoc empty m.distinct, get-empty {V = V} j))

module _ {V W : Type 0} (f : V → W) where
  lookup-mapped :
      (j : String) (l : Assoc V) → lookup j (map (λ e. (e.0, f e.1)) l) ≡ Option.map f (lookup j l)
  unfolding lookup
  lookup-mapped j [] = refl
  lookup-mapped j ((k, v) ∷ l) = ground (arith, lookup-mapped j l)

  mapped-Distinct : (l : Assoc V) → Distinct l → Distinct (map (λ e. (e.0, f e.1)) l)
  mapped-Distinct [] d = tt
  mapped-Distinct ((k, v) ∷ l) d = (ground (arith, lookup-mapped k l, d.0), mapped-Distinct l d.1)

-- Both ways: the values are written out by `f` and read in by `g`.
pub get-rebuilt_mapped :
    {V U W : Type 0} (f : V → U) (g : U → W) (j : String) (m : Map V)
    → get j (
        set_all empty (
          map
            (λ (e : String × U). (e.0, g e.1))
            (map (λ (e : String × V). (e.0, f e.1)) (entries m))))
      ≡ Option.map (λ v. g (f v)) (get j m)
unfolding entries get
get-rebuilt_mapped {V} {U} {W} f g j m =
    let once : Assoc U = map (λ (e : String × V). (e.0, f e.1)) m.assoc in
    let twice : Assoc W = map (λ (e : String × U). (e.0, g e.1)) once in
    ground (
      arith,
      get-set_all j twice empty (mapped-Distinct g once (mapped-Distinct f m.assoc m.distinct)),
      get-empty {V = W} j,
      lookup-mapped g j once,
      lookup-mapped f j m.assoc,
    )

keys_only : (l : Assoc (Unit {0})) → map (λ k. (k, tt)) (map (λ (e : String × Unit {0}). e.0) l) ≡ l
keys_only [] = refl
keys_only ((k, v) ∷ l) = ap (λ rest. (k, v) ∷ rest) (keys_only l)

pub has-set_of-keys : (k : String) (s : StringSet) → has k (set_of (keys s)) ≡ has k s
unfolding set_of keys get
has-set_of-keys k s =
    rw (keys_only s.assoc)
      (ground (arith, get-set_all k s.assoc empty s.distinct, get-empty {V = Unit {0}} k))
