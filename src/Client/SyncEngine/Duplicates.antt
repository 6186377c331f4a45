-- ===== src/Client/SyncEngine/Duplicates.antt =====
-- Runs of incoming items (packages/client-core/src/core/sync-engine.ts).
use sharepaste.Prelude.{
  ◌+◌, ◌≤◌, ◌≡◌, refl, String, Bool, true, false, List, [], ◌∷◌, arith, eq_iff, if◌then◌else◌,
  includes, length,
}
use sharepaste.Map.{has, size, size-empty}
use sharepaste.SeenItems.{seen_capacity}
use sharepaste.SeenItems.Bounds.{has-remember, size-remember-room}
use sharepaste.Client.Types.{ClipboardPayload}
use sharepaste.Client.SyncEngine.{SyncEngine, new_engine, mark_seen, should_apply_incoming}

-- The identifiers of the items that are applied while the payloads come in one by one.
unfoldable pub applied : List ClipboardPayload → SyncEngine → List String
unfolding should_apply_incoming mark_seen
applied [] e = []
applied (p ∷ ps) e =
    let (decision, e') = should_apply_incoming p e in
    let rest = applied ps e' in if decision.accepted then p.item_id ∷ rest else rest

abbrev pub all_different : List String → Bool
all_different [] = true
all_different (k ∷ ks) = if includes k ks then false else all_different ks

-- What was seen is not applied.
seen-applied :
    (ps : List ClipboardPayload) (e : SyncEngine) (id : String)
    → length ps + size e.recently_seen ≤ seen_capacity
    → has id e.recently_seen ≡ true
    → includes id (applied ps e) ≡ false
unfolding applied should_apply_incoming mark_seen
seen-applied [] e id room seen = refl
seen-applied (p ∷ ps) e id room seen = ground (
  arith,
  eq_iff p.item_id id,
  seen-applied ps e id,
  seen-applied ps (mark_seen p.item_id e) id,
  has-remember p.item_id id e.recently_seen,
  size-remember-room p.item_id e.recently_seen,
)

applied-all_different :
    (ps : List ClipboardPayload) (e : SyncEngine)
    → length ps + size e.recently_seen ≤ seen_capacity
    → all_different (applied ps e) ≡ true
unfolding applied should_apply_incoming mark_seen
applied-all_different [] e room = refl
applied-all_different (p ∷ ps) e room = ground (
  arith,
  eq_iff p.item_id p.item_id,
  applied-all_different ps e,
  applied-all_different ps (mark_seen p.item_id e),
  seen-applied ps (mark_seen p.item_id e) p.item_id,
  has-remember p.item_id p.item_id e.recently_seen,
  size-remember-room p.item_id e.recently_seen,
)

-- Of at most a thousand payloads that come in to a new engine, no item is applied twice.
pub new_engine-applies_once :
    (device_id : String) (ps : List ClipboardPayload)
    → length ps ≤ seen_capacity
    → all_different (applied ps (new_engine device_id)) ≡ true
unfolding new_engine
new_engine-applies_once device_id ps room =
    applied-all_different ps (new_engine device_id) (omega (arith, size-empty (Unit {0})))
