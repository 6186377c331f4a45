-- ===== src/SeenItems/Bounds.antt =====
-- The size of the set of seen items.
use sharepaste.Prelude.{
  List, length, ap, [], ◌∷◌, String, Bool, ◌≡◌, refl, ◌≤◌, ◌<◌, false, arith, suc, ◌==◌, eq_refl,
  ◌||◌,
}
use sharepaste.Map.{
  length-keys, size-set, has, get-set, includes-keys, size-delete-lt, StringSet, keys, add, size,
}
use sharepaste.SeenItems.{remember, drop_first, seen_capacity}

-- The oldest item is the empty text.
abbrev pub starts_empty : List String → Bool
starts_empty [] = false
starts_empty (k ∷ ks) = k == ""

-- What is dropped is the first key.
size-drop_first-lt :
    (seen : StringSet) (ks : List String)
    → keys seen ≡ ks
    → starts_empty ks ≡ false
    → 0 < size seen
    → size (drop_first seen) < size seen
unfolding drop_first
size-drop_first-lt seen [] e n p = omega (arith, length-keys seen, ap length e)
size-drop_first-lt seen (k ∷ ks) e n p =
    rw (drop_first, e, n) (size-delete-lt k seen (ground (arith, includes-keys k seen, eq_refl k)))

-- A set of at most a thousand items stays one, unless its oldest item is the empty text.
pub size-remember-le :
    (id : String) (seen : StringSet)
    → size seen ≤ seen_capacity
    → starts_empty (keys (add id seen)) ≡ false
    → size (remember id seen) ≤ seen_capacity
unfolding remember
size-remember-le id seen bound named =
    ground
      (arith, size-set id tt seen, size-drop_first-lt (add id seen) (keys (add id seen)) refl named)

-- While there is room, nothing is forgotten.
pub has-remember :
    (id j : String) (seen : StringSet)
    → size seen < seen_capacity
    → has j (remember id seen) ≡ (id == j || has j seen)
unfolding remember
has-remember id j seen room = ground (arith, size-set id tt seen, get-set id j tt seen)

pub size-remember-room :
    (id : String) (seen : StringSet)
    → size seen < seen_capacity
    → size (remember id seen) ≤ suc (size seen)
unfolding remember
size-remember-room id seen room = ground (arith, size-set id tt seen)
