-- ===== src/Store/Keeps/Clipboard.antt =====
-- The calls on clipboard items and presences are safe.
use sharepaste.Prelude.{ℕ, ◌≡◌, refl, String, true, List, [], ◌∷◌, Option, none, some, ℤ}
use sharepaste.Map.{StringSet, has}
use sharepaste.Types.{Device, ClipboardItem, PresenceState}
use sharepaste.Env.{Env}
use sharepaste.Exec.{World}
use sharepaste.Store.Clipboard.{
  deliver_to, deliver, accept_item, push_clipboard_item, ack_item, fetch_offline, open_presence,
  close_presence,
}
use sharepaste.Store.Sound.{Inv}
use sharepaste.Store.Keeps.Steps.{Sound-draw, Sound-touch, Sound-seen}
use sharepaste.Store.Keeps.Common.{cleanup_expired-Safe, enqueue_offline-Safe}
use sharepaste.Store.Keeps.Policies.{get_policy-Yields}
use sharepaste.Store.Keeps.Rules.{
  Safe, Safe-emit, Yields-pure, Yields-write, Yields-bind, Yields-if, Yields-require, Yields-gets,
  Yields-draw, Yields-demand, Yields-guard, Yields-modify,
}

module _ {env : Env} (item : ClipboardItem) where
  deliver_to-Safe :
      (target : String) (p : Option PresenceState) (w : World)
      → Inv env w
      → Safe env (deliver_to env item target p w)
  unfolding deliver_to
  deliver_to-Safe target none w v =
      Yields-bind _ _ w (enqueue_offline-Safe w v target item) λ _ w' v' _. Yields-pure _ w' v' tt
  deliver_to-Safe target (some p) w v =
      Yields-bind _ _ w (Safe-emit _ _ w v) λ _ w' v' _. Yields-pure _ w' v' tt

  deliver-Safe :
      (targets : List String) (w : World) → Inv env w → Safe env (deliver env item targets w)
  unfolding deliver
  deliver-Safe [] w v = Yields-pure _ w v tt
  deliver-Safe (target ∷ targets) w v = Yields-gets _ _ w (
      Yields-bind _ _ w (deliver_to-Safe target _ w v) λ lan w' v' _.
        Yields-bind _ _ w' (deliver-Safe targets w' v') λ rest w'' v'' _. Yields-pure _ w'' v'' tt)

module _ {env : Env} (w : World) (v : Inv env w) where
  accept_item-Safe :
      (source : Device) (item : ClipboardItem) (seen : StringSet)
      → has source.group_id w.groups ≡ true
      → Safe env (accept_item env source item seen w)
  unfolding accept_item
  accept_item-Safe source item seen there = Yields-modify _ _ w (
      Yields-gets _ _ _ (
        Yields-demand _ _ _ (v.group_members source.group_id there) λ ms m.
          Yields-bind _ _ _ (deliver-Safe item _ _ (Sound-seen v source.group_id _))
            λ lan w' v' _. Yields-pure _ w' v' tt))

module _ {env : Env} (w : World) (v : Inv env w) where
  pub push_clipboard_item-Safe :
      (id : String) (item : ClipboardItem) → Safe env (push_clipboard_item env id item w)
  unfolding push_clipboard_item
  push_clipboard_item-Safe id item = Yields-bind _ _ w (cleanup_expired-Safe w v) λ _ w1 v1 _.
      Yields-require _ id w1 v1 λ d e a.
        Yields-bind _ _ w1
          (get_policy-Yields w1 v1 {P = λ _ w'. has d.group_id w'.groups ≡ true} id
            (λ _. v1.device_group id d e))
          λ policy w2 v2 there. Yields-guard _ _ _ w2 v2 refl λ _.
            Yields-guard _ _ _ w2 v2 refl λ _. Yields-gets _ _ w2 (
              Yields-demand _ _ w2 (v2.group_seen d.group_id there) λ seen s.
                Yields-if (has item.item_id seen) _ _ w2 (λ _. Yields-pure _ w2 v2 tt)
                  (λ _. accept_item-Safe w2 v2 d item seen there))

  pub ack_item-Safe : (id item : String) → Safe env (ack_item id item w)
  unfolding ack_item
  ack_item-Safe id item =
      Yields-require _ id w v λ d e a. Yields-modify _ _ w (Yields-pure _ _ v tt)

  pub fetch_offline-Safe : (id : String) (limit : ℤ) → Safe env (fetch_offline env id limit w)
  unfolding fetch_offline
  fetch_offline-Safe id limit = Yields-bind _ _ w (cleanup_expired-Safe w v) λ _ w' v' _.
      Yields-require _ id w' v'
        λ d e a. Yields-gets _ _ w' (Yields-modify _ _ w' (Yields-pure _ _ v' tt))

  pub open_presence-Safe :
      (id : String) (lan : Option String) (stream : ℕ)
      → Safe env (open_presence env id lan stream w)
  unfolding open_presence
  open_presence-Safe id lan stream = Yields-require _ id w v λ d e a. Yields-draw _ _ w (
      Yields-modify _ _ _ (
        Yields-draw _ _ _
          (Safe-emit _ _ _ (Sound-draw (Sound-touch (Sound-draw v) id d _ e refl refl refl)))))

  pub close_presence-Safe : (id : String) → Safe env (close_presence id w)
  unfolding close_presence
  close_presence-Safe id = Yields-write _ _ v tt
