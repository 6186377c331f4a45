-- ===== src/Store/Behaviour/DuplicateLaws.antt =====
-- Pushes of an item that the group has seen (`pushClipboardItem` of
-- apps/server/src/store/sharepaste-store.ts).
use sharepaste.Prelude.{
  ◌≤◌, ◌≡◌, refl, sym, ap, ◌∙◌, subst, String, Bool, true, some, List, [], ◌∷◌, arith, filter, map,
  ltb,
}
use sharepaste.Map.{get, has, StringSet, get-map_values}
use sharepaste.Types.{Device, ClipboardItem, OfflineEnvelope, PushResult}
use sharepaste.Env.{Env, now_unix}
use sharepaste.Exec.{World, ok, or_fail, type_error, ◌>>=◌}
use sharepaste.Store.Common.{cleanup_expired, drop_expired, queue_of}
use sharepaste.Store.Clipboard.{push_clipboard_item}
use sharepaste.Store.Behaviour.Outcomes.{
  Ends, Whatever, Ends-bind, Ends-gets, Ends-lift, Ends-choose, Ends-pure, Ends-require,
  cleanup_Ends, or_fail-found, find_device-known,
}
use sharepaste.Store.Behaviour.QueueLaws.{item_of, count_items}
use sharepaste.Store.Behaviour.DeliveryLaws.{queued}
use sharepaste.Store.Behaviour.PushLaws.{Same, cleanup-Same, get_policy_untouched}

count-filter-le :
    (p : ClipboardItem → Bool) (t : OfflineEnvelope → Bool) (q : List OfflineEnvelope)
    → count_items p (map item_of (filter t q)) ≤ count_items p (map item_of q)
count-filter-le p t [] = omega arith
count-filter-le p t (a ∷ q) = ground (arith, count-filter-le p t q)

module _ (env : Env) (w : World) (k : String) (p : ClipboardItem → Bool) where
  -- No event was sent, and the queue has no item more.
  pub record Quiet (v : World) : Type 0 where
    pub sent : v.sent ≡ w.sent
    pub count : count_items p (queued k v) ≤ count_items p (queued k w)

  cleanup-Quiet : Quiet (cleanup_expired env w).1
  unfolding cleanup_expired drop_expired ◌>>=◌
  cleanup-Quiet =
      let live = λ (e : OfflineEnvelope). ltb (now_unix env w.draws) e.expires_at_unix in
      record {
        sent = refl;
        count = ground (
          arith,
          get-map_values (filter live) k w.offline,
          count-filter-le p live (queue_of (get k w.offline)),
        );
      }

  push_clipboard_item-Quiet :
      (id : String) (item : ClipboardItem) (d : Device) (seen : StringSet)
      → get id w.devices ≡ some d
      → get d.group_id w.seen_items ≡ some seen
      → has item.item_id seen ≡ true
      → Ends Quiet Whatever (push_clipboard_item env id item w)
  unfolding push_clipboard_item
  push_clipboard_item-Quiet id item d seen known s old =
      Ends-bind _ (λ v. Same w v × Quiet v) _ w
        (cleanup_Ends env w (cleanup-Same env w, cleanup-Quiet))
        λ _ w1 both. Ends-require _ id w1 tt λ d' e.
          let d_same =
            find_device-known id w1.devices d d' (ap (get id) both.0.devices ∙ known) e in
          Ends-bind _ (λ v. v ≡ w1) _ w1 (get_policy_untouched id w1)
            λ policy w2 q.
              let both2 = subst (λ v. Same w v × Quiet v) (sym q) both in
              let seen2 : get d'.group_id w2.seen_items ≡ some seen = rw (d_same, both2.0.seen) s in
              Ends-lift _ _ w2 tt λ _ _. Ends-lift _ _ w2 tt λ _ _. Ends-gets _ _ w2 (
                Ends-lift _ _ w2 tt
                  λ (seen' : StringSet)
                      (e' : or_fail (get d'.group_id w2.seen_items) type_error ≡ ok seen').
                    Ends-choose (has item.item_id seen') _ _ w2 (λ _. Ends-pure _ w2 both2.1)
                      (λ new. absurd (cc (old, new, or_fail-found _ _ seen seen' seen2 e'))))

-- A push of an item that the group has seen, if it returns, sends no event and puts no item in
-- any queue. Premises: the device that pushes is known, and its group has its set of seen items.
pub push_clipboard_item_again :
    (env : Env) (w : World) (id : String) (item : ClipboardItem) (d : Device) (seen : StringSet)
    → get id w.devices ≡ some d
    → get d.group_id w.seen_items ≡ some seen
    → has item.item_id seen ≡ true
    → (r : PushResult) (w1 : World) → push_clipboard_item env id item w ≡ (ok r, w1)
    → (k : String) (p : ClipboardItem → Bool)
    → (w1.sent ≡ w.sent) × (count_items p (queued k w1) ≤ count_items p (queued k w))
push_clipboard_item_again env w id item d seen known s old r w1 e k p =
    let quiet =
      (subst (Ends (Quiet env w k p) Whatever) e
        (push_clipboard_item-Quiet env w k p id item d seen known s old)).ended in
    (quiet.sent, quiet.count)
