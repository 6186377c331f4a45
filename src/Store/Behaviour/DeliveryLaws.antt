-- ===== src/Store/Behaviour/DeliveryLaws.antt =====
-- The delivery loop of `pushClipboardItem` (apps/server/src/store/sharepaste-store.ts).
use sharepaste.Store.Clipboard.{deliver, deliver_to}
use sharepaste.Prelude.{
  ℕ, suc, ◌+◌, ◌≡◌, String, Bool, true, List, [], ◌∷◌, ◌++◌, arith, map, ◌==◌, if◌then◌else◌,
  eq_iff, is_some, not, none, some, refl, ◌&&◌, Option,
}
use sharepaste.Map.{get, get-set, has}
use sharepaste.Types.{ClipboardItem, OfflineEnvelope, PresenceState}
use sharepaste.Env.{Env, now_unix}
use sharepaste.Exec.{World, ◌>>=◌}
use sharepaste.Store.Common.{queue_of, enqueue_offline, offline_ttl_seconds}
use sharepaste.Store.Behaviour.QueueLaws.{item_of, count_items}

-- How often a device is named.
abbrev pub occurrences : String → List String → ℕ
occurrences k [] = 0
occurrences k (j ∷ js) = if j == k then suc (occurrences k js) else occurrences k js

-- The items in the queue of a device.
abbrev pub queued : String → World → List ClipboardItem
queued k w = map item_of (queue_of (get k w.offline))

count-append :
    (p : ClipboardItem → Bool) (q : List OfflineEnvelope) (e : OfflineEnvelope)
    → count_items p (map item_of (q ++ e ∷ []))
      ≡ count_items p (map item_of q) + (if p e.item then 1 else 0)
count-append p [] e = ground arith
count-append p (a ∷ q) e = ground (arith, count-append p q e)

enqueue_offline-queued :
    (env : Env) (target : String) (item : ClipboardItem) (w : World) (k : String)
    (p : ClipboardItem → Bool)
    → p item ≡ true
    → count_items p (queued k (enqueue_offline env target item w).1)
      ≡ (if target == k then suc (count_items p (queued k w)) else count_items p (queued k w))
unfolding enqueue_offline ◌>>=◌
enqueue_offline-queued env target item w k p h =
    let e : OfflineEnvelope = record {
      item = item;
      target_device_id = target;
      expires_at_unix = now_unix env w.draws + offline_ttl_seconds;
    } in
    let q = queue_of (get target w.offline) in
    ground (arith, get-set target k (q ++ e ∷ []) w.offline, eq_iff target k, count-append p q e)

deliver_to-presences :
    (env : Env) (item : ClipboardItem) (target : String) (o : Option PresenceState) (w : World)
    → (deliver_to env item target o w).1.presences ≡ w.presences
unfolding deliver_to enqueue_offline ◌>>=◌
deliver_to-presences env item target none w = refl
deliver_to-presences env item target (some s) w = refl

deliver_to-queued :
    (env : Env) (item : ClipboardItem) (target : String) (o : Option PresenceState) (w : World)
    (k : String) (p : ClipboardItem → Bool)
    → p item ≡ true
    → count_items p (queued k (deliver_to env item target o w).1)
      ≡ count_items p (queued k w) + (if target == k && not (is_some o) then 1 else 0)
unfolding deliver_to ◌>>=◌
deliver_to-queued env item target none w k p h =
    ground (arith, enqueue_offline-queued env target item w k p h)
deliver_to-queued env item target (some s) w k p h = ground arith

deliver-step :
    (env : Env) (item : ClipboardItem) (target : String) (targets : List String) (w : World)
    → (deliver env item (target ∷ targets) w).1
      ≡ (deliver env item targets (deliver_to env item target (get target w.presences) w).1).1
unfolding deliver deliver_to enqueue_offline ◌>>=◌
deliver-step env item target targets w = ground arith

-- Each target without a stream gets the item once more for each time that it is named; the queue
-- of a device with a stream, and of one that is not named, stays as long as it was.
pub deliver-queued :
    (env : Env) (item : ClipboardItem) (targets : List String) (w : World) (k : String)
    (p : ClipboardItem → Bool)
    → p item ≡ true
    → count_items p (queued k (deliver env item targets w).1)
      ≡ count_items p (queued k w) + (if has k w.presences then 0 else occurrences k targets)
unfolding deliver ◌>>=◌
deliver-queued env item [] w k p h = ground arith
deliver-queued env item (t ∷ ts) w k p h =
    let w1 = (deliver_to env item t (get t w.presences) w).1 in
    ground (
      arith,
      deliver-step env item t ts w,
      deliver-queued env item ts w1 k p h,
      deliver_to-queued env item t (get t w.presences) w k p h,
      deliver_to-presences env item t (get t w.presences) w,
      eq_iff t k,
    )
