-- ===== src/Client/SharePaste/Coherence/Items.antt =====
-- The session and the flag of the loop through sending and applying
-- (apps/client-cli/src/core/sharepaste-client.ts).
use sharepaste.Prelude.{
  ◌≡◌, refl, String, Bool, true, false, Option, none, some, List, [], ◌∷◌, arith, ℕ,
}
use sharepaste.Types.{ClipboardKind, text, image, file}
use sharepaste.Client.Types.{ClipboardPayload, SharePolicy}
use sharepaste.Client.SyncEngine.{SyncEngine, should_send, should_apply_incoming, mark_seen}
use sharepaste.Client.Task.{Client, Outside}
use sharepaste.Client.Task.Outcomes.{Leaves, Leaves-bind, Leaves-done}
use sharepaste.Client.Ports.{Ports, Bytes}
use sharepaste.Client.SharePaste.Items.{
  remember_item, tell, show_item, take_item, apply_incoming, apply_all, sync_offline, make_item_id,
  push_payload, send_payload, send_text, send_file,
}
use sharepaste.Client.SharePaste.Coherence.{
  Sane, HasEngine, KeepsSane, bind-KeepsSane, done-KeepsSane, asks-KeepsSane, if-KeepsSane,
  aside-KeepsSane, current_state-KeepsSane, get_group_key-KeepsSane, with_engine-KeepsSane,
  Leaves-asks_with, Leaves-write_engine,
}

-- The tests of the engine leave it with its device.
should_apply_incoming-device :
    (item : ClipboardPayload) (e : SyncEngine)
    → (should_apply_incoming item e).1.local_device_id ≡ e.local_device_id
unfolding should_apply_incoming mark_seen
should_apply_incoming-device item e = ground arith

should_send-device :
    (payload : ClipboardPayload) (policy : SharePolicy) (e : SyncEngine)
    → (should_send payload policy e).1.local_device_id ≡ e.local_device_id
unfolding should_send mark_seen
should_send-device payload policy e = ground arith

module _ {X : Type 0} {loop : Bool} where
  pub remember_item-KeepsSane :
      (item : ClipboardPayload) → KeepsSane {X = X} loop (remember_item item)
  unfolding remember_item
  remember_item-KeepsSane item = aside-KeepsSane _ (λ c. refl) (λ c. refl)

  pub tell-KeepsSane :
      {E : Type 0} (handler : Option (E → Outside X (Unit {0}))) (event : E)
      → KeepsSane loop (tell handler event)
  unfolding tell
  tell-KeepsSane none event = done-KeepsSane tt
  tell-KeepsSane (some handler) event = asks-KeepsSane _

module _ {X : Type 0} {loop : Bool} (ports : Ports X) where
  show_item-KeepsSane :
      (item : ClipboardPayload) (plaintext : Bytes) (kind : ClipboardKind)
      → KeepsSane loop (show_item ports item plaintext kind)
  unfolding show_item
  show_item-KeepsSane item plaintext text =
      bind-KeepsSane _ _ (asks-KeepsSane _) λ written. tell-KeepsSane _ _
  show_item-KeepsSane item plaintext image = bind-KeepsSane _ _ (asks-KeepsSane _) λ saved.
      bind-KeepsSane _ _ (aside-KeepsSane _ (λ c. refl) (λ c. refl)) λ logged. tell-KeepsSane _ _
  show_item-KeepsSane item plaintext file = bind-KeepsSane _ _ (asks-KeepsSane _) λ saved.
      bind-KeepsSane _ _ (aside-KeepsSane _ (λ c. refl) (λ c. refl)) λ logged. tell-KeepsSane _ _

  take_item-KeepsSane :
      (item : ClipboardPayload) (key : Bytes) → KeepsSane loop (take_item ports item key)
  unfolding take_item
  take_item-KeepsSane item key = bind-KeepsSane _ _ (remember_item-KeepsSane item) λ kept.
      bind-KeepsSane _ _ (asks-KeepsSane _)
        λ plaintext. show_item-KeepsSane item plaintext item.kind

  pub apply_incoming-KeepsSane :
      (item : ClipboardPayload) (key : Bytes) → KeepsSane loop (apply_incoming ports item key)
  unfolding apply_incoming
  apply_incoming-KeepsSane item key = with_engine-KeepsSane _ λ e c v.
      Leaves-write_engine _ _ c v (should_apply_incoming-device item e)
        (if-KeepsSane _ _ _ (take_item-KeepsSane item key) (done-KeepsSane tt))

  apply_all-KeepsSane :
      (id : String) (key : Bytes) (items : List ClipboardPayload)
      → KeepsSane loop (apply_all ports id key items)
  unfolding apply_all
  apply_all-KeepsSane id key [] = done-KeepsSane tt
  apply_all-KeepsSane id key (item ∷ items) =
      bind-KeepsSane _ _ (apply_incoming-KeepsSane item key)
        λ applied. bind-KeepsSane _ _ (asks-KeepsSane _) λ acked. apply_all-KeepsSane id key items

  pub sync_offline-KeepsSane : KeepsSane loop (sync_offline ports)
  unfolding sync_offline
  sync_offline-KeepsSane = bind-KeepsSane _ _ current_state-KeepsSane λ state.
      bind-KeepsSane _ _ (get_group_key-KeepsSane ports)
        λ key. bind-KeepsSane _ _ (asks-KeepsSane _) λ items. apply_all-KeepsSane _ key items

  push_payload-KeepsSane :
      (id : String) (payload : ClipboardPayload) → KeepsSane loop (push_payload ports id payload)
  unfolding push_payload
  push_payload-KeepsSane id payload = bind-KeepsSane _ _ (asks-KeepsSane _) λ accepted.
      if-KeepsSane _ _ _
        (bind-KeepsSane _ _ (remember_item-KeepsSane payload) λ kept. done-KeepsSane true)
        (done-KeepsSane false)

  make_item_id-HasEngine :
      {e : SyncEngine} (content : Bytes) (at : ℕ) (c : Client X)
      → HasEngine loop e c
      → Leaves (HasEngine loop e) (Sane loop) (make_item_id ports content at c)
  unfolding make_item_id
  make_item_id-HasEngine content at c v =
      Leaves-bind _ (HasEngine loop _) _ c (Leaves-asks_with _ c v)
        λ suffix c' v'. Leaves-done _ _ v'

  send_payload-KeepsSane :
      (kind : ClipboardKind) (mime : String) (plaintext : Bytes) (id : String)
      (policy : SharePolicy)
      → KeepsSane loop (send_payload ports kind mime plaintext id policy)
  unfolding send_payload
  send_payload-KeepsSane kind mime plaintext id policy =
      bind-KeepsSane _ _ (get_group_key-KeepsSane ports) λ key.
        bind-KeepsSane _ _ (asks-KeepsSane _) λ now. with_engine-KeepsSane _ λ e c v.
          Leaves-bind _ (HasEngine loop e) _ c (make_item_id-HasEngine _ _ c v) λ item_id c1 v1.
            Leaves-bind _ (HasEngine loop e) _ c1 (Leaves-asks_with _ c1 v1) λ encrypted c2 v2.
              Leaves-write_engine _ _ c2 v2 (should_send-device _ policy e)
                (if-KeepsSane _ _ _ (push_payload-KeepsSane id _) (done-KeepsSane false))

  pub send_text-KeepsSane :
      (value : String) (cached : Option SharePolicy) → KeepsSane loop (send_text ports value cached)
  unfolding send_text
  send_text-KeepsSane value none =
      bind-KeepsSane _ _ current_state-KeepsSane λ state.
        bind-KeepsSane _ _ (asks-KeepsSane _) λ policy. send_payload-KeepsSane _ _ _ _ policy
  send_text-KeepsSane value (some policy) = bind-KeepsSane _ _ current_state-KeepsSane λ state.
      bind-KeepsSane _ _ (done-KeepsSane policy) λ policy. send_payload-KeepsSane _ _ _ _ policy

  pub send_file-KeepsSane :
      (path mime : String) (as_image : Bool) → KeepsSane loop (send_file ports path mime as_image)
  unfolding send_file
  send_file-KeepsSane path mime as_image = bind-KeepsSane _ _ current_state-KeepsSane λ state.
      bind-KeepsSane _ _ (asks-KeepsSane _) λ policy.
        bind-KeepsSane _ _ (asks-KeepsSane _) λ bytes. send_payload-KeepsSane _ _ _ _ policy
