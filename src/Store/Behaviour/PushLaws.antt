-- ===== src/Store/Behaviour/PushLaws.antt =====
-- Pushes of items (`pushClipboardItem` of apps/server/src/store/sharepaste-store.ts).
use sharepaste.Prelude.{
  ◌≤◌, ◌≡◌, refl, sym, ap, subst, String, Bool, true, false, some, List, [], ◌∷◌, arith, not,
  filter, ◌==◌, eq_iff, includes, ◌∙◌,
}
use sharepaste.Map.{get, has, keys, StringSet, includes-keys}
use sharepaste.Types.{Device, ClipboardItem, PushResult}
use sharepaste.Env.{Env}
use sharepaste.Exec.{World, ok, ◌>>=◌, type_error, or_fail}
use sharepaste.Store.Common.{cleanup_expired}
use sharepaste.Store.PolicyUpdates.{get_policy}
use sharepaste.Store.Clipboard.{deliver, accept_item, push_clipboard_item}
use sharepaste.Store.Behaviour.Outcomes.{
  Ends, Whatever, Ends-bind, Ends-gets, Ends-lift, Ends-choose, Ends-pure, Ends-require,
  Ends-modify, cleanup_Ends, returned_Ends, or_fail-found, find_device-known,
}
use sharepaste.Store.Behaviour.QueueLaws.{count_items}
use sharepaste.Store.Behaviour.DeliveryLaws.{queued, occurrences, deliver-queued}

occurrences-filter :
    (source k : String) (ks : List String)
    → includes k ks ≡ true
    → (source == k) ≡ false
    → 1 ≤ occurrences k (filter (λ id. not (id == source)) ks)
occurrences-filter source k [] h n = ground arith
occurrences-filter source k (j ∷ js) h n =
    ground (arith, occurrences-filter source k js, eq_iff j source, eq_iff j k, eq_iff source k)

-- Two worlds with the same devices, members, presences and seen items.
pub record Same (w v : World) : Type 0 where
  pub devices : v.devices ≡ w.devices
  pub members : v.group_devices ≡ w.group_devices
  pub presences : v.presences ≡ w.presences
  pub seen : v.seen_items ≡ w.seen_items

pub cleanup-Same : (env : Env) (w : World) → Same w (cleanup_expired env w).1
unfolding cleanup_expired ◌>>=◌
cleanup-Same env w = record { devices = refl; members = refl; presences = refl; seen = refl }

pub get_policy_untouched : (id : String) (w : World) → Ends (λ v. v ≡ w) Whatever (get_policy id w)
unfolding get_policy
get_policy_untouched id w =
    Ends-require _ id w tt λ d _. Ends-gets _ _ w (Ends-lift _ _ w tt λ g _. Ends-pure _ w refl)

module _ (env : Env) (k : String) (item : ClipboardItem) (p : ClipboardItem → Bool)
    (passes : p item ≡ true) where
  abbrev Reached : World → Type 0
  Reached v = 1 ≤ count_items p (queued k v)

  deliver-Reached :
      (targets : List String) (w : World)
      → has k w.presences ≡ false
      → 1 ≤ occurrences k targets
      → Ends Reached Whatever (deliver env item targets w)
  deliver-Reached targets w away named =
      returned_Ends _ (ground (arith, deliver-queued env item targets w k p passes))

  accept_item-Reached :
      (source : Device) (seen members : StringSet) (w : World)
      → get source.group_id w.group_devices ≡ some members
      → has k members ≡ true
      → (source.device_id == k) ≡ false
      → has k w.presences ≡ false
      → Ends Reached Whatever (accept_item env source item seen w)
  unfolding accept_item
  accept_item-Reached source seen members w m has_k other away = Ends-modify _ _ w (
      Ends-gets _ _ _ (
        Ends-lift _ _ _ tt
          λ (ms : StringSet) (e : or_fail (get source.group_id w.group_devices) type_error ≡ ok ms).
            Ends-bind _ Reached _ _
              (deliver-Reached _ _ away (
                occurrences-filter source.device_id k (keys ms)
                  (ground (arith, or_fail-found _ _ members ms m e, includes-keys k ms)) other))
              λ _ w2 h. Ends-pure _ w2 h))

  push_clipboard_item-Ends :
      (w : World) (id : String) (d : Device) (seen members : StringSet)
      → get id w.devices ≡ some d
      → get d.group_id w.group_devices ≡ some members
      → get d.group_id w.seen_items ≡ some seen
      → has item.item_id seen ≡ false
      → has k members ≡ true
      → (d.device_id == k) ≡ false
      → has k w.presences ≡ false
      → Ends Reached Whatever (push_clipboard_item env id item w)
  unfolding push_clipboard_item
  push_clipboard_item-Ends w id d seen members known m s new has_k other away =
      Ends-bind _ (Same w) _ w (cleanup_Ends env w (cleanup-Same env w)) λ _ w1 same.
        Ends-require _ id w1 tt λ d' e.
          Ends-bind _ (λ v. v ≡ w1) _ w1 (get_policy_untouched id w1)
            λ policy w2 q.
              let d_same =
                find_device-known id w1.devices d d' (ap (get id) same.devices ∙ known) e in
              let same2 = subst (Same w) (sym q) same in
              let seen2 : get d'.group_id w2.seen_items ≡ some seen = rw (d_same, same2.seen) s in
              Ends-lift _ _ w2 tt λ _ _. Ends-lift _ _ w2 tt λ _ _. Ends-gets _ _ w2 (
                Ends-lift _ _ w2 tt
                  λ (seen' : StringSet)
                      (e' : or_fail (get d'.group_id w2.seen_items) type_error ≡ ok seen').
                    Ends-choose (has item.item_id seen') _ _ w2
                      (λ old. absurd (cc (old, new, or_fail-found _ _ seen seen' seen2 e')))
                      (λ _.
                        accept_item-Reached d' seen' members w2 (rw (d_same, same2.members) m) has_k
                          (rw d_same other) (rw same2.presences away)))

-- An item that is new to the group waits for every other member without a stream: if the push
-- returns, the queue of such a member holds the item, that is, an item that passes each test that
-- the item passes. Premises: the device that pushes is known, and its group has its member and
-- seen sets.
pub push_clipboard_item-reaches :
    (env : Env) (w : World) (id : String) (item : ClipboardItem) (d : Device)
    (seen members : StringSet)
    → get id w.devices ≡ some d
    → get d.group_id w.group_devices ≡ some members
    → get d.group_id w.seen_items ≡ some seen
    → has item.item_id seen ≡ false
    → (k : String) → has k members ≡ true
    → (d.device_id == k) ≡ false
    → has k w.presences ≡ false
    → (r : PushResult) (w1 : World) → push_clipboard_item env id item w ≡ (ok r, w1)
    → (p : ClipboardItem → Bool) → p item ≡ true
    → 1 ≤ count_items p (queued k w1)
push_clipboard_item-reaches env w id item d seen members known m s new k has_k other away r w1 e p
      passes =
    (subst (Ends (Reached env k item p passes) Whatever) e (
      push_clipboard_item-Ends env k item p passes w id d seen members known m s new has_k other
        away)).ended
