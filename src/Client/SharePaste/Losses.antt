-- ===== src/Client/SharePaste/Losses.antt =====
-- Items that cannot be decrypted when they come in (apps/client-cli/src/core/
-- sharepaste-client.ts).
use sharepaste.Client.History.{push}
use sharepaste.Client.Session.{require_sync_engine}
use sharepaste.Client.Task.Steps.{bind_thrown, bind_returned, asks_thrown}
use sharepaste.Prelude.{
  ◌≡◌, refl, String, Bool, true, false, some, List, ◌∷◌, arith, ◌<◌, eq_refl, ◌==◌, ap, ◌∙◌,
  if◌then◌else◌,
}
use sharepaste.Map.{has, size}
use sharepaste.SeenItems.{seen_capacity}
use sharepaste.SeenItems.Bounds.{has-remember}
use sharepaste.Client.Types.{ClipboardPayload}
use sharepaste.Client.SyncEngine.{
  SyncEngine, SyncDecision, mark_seen, should_apply_incoming, accept, refuse,
}
use sharepaste.Client.Task.{
  Client, Task, returned, thrown, done, asks, or_throw, ◌>>=◌, ◌>>◌, changes, settle,
}
use sharepaste.Client.Ports.{Ports, Bytes, CipherEnvelope}
use sharepaste.Client.SharePaste.Keys.{current_engine, write_engine, not_bootstrapped}
use sharepaste.Client.SharePaste.Items.{remember_item, take_item, apply_incoming, apply_all}

changes_step : {S : Type 0} (f : S → S) (s : S) → changes f s ≡ (returned tt, f s)
unfolding changes
changes_step f s = refl

engine_found :
    {X : Type 0} (c : Client X) (e : SyncEngine)
    → c.session.sync_engine ≡ some e
    → current_engine c ≡ (returned e, c)
unfolding current_engine require_sync_engine ◌>>=◌ or_throw settle
engine_found c e h = ap (λ found. (or_throw found not_bootstrapped, c)) h

write_engine_step :
    {X : Type 0} (e : SyncEngine) (c : Client X)
    → write_engine e c
      ≡ (returned tt, record c { session = record c.session { sync_engine = some e } })
unfolding write_engine changes
write_engine_step e c = refl

module _ {X : Type 0} (ports : Ports X) where
  abbrev pub rest_of : ClipboardPayload → Bytes → Bool → Task (Client X) (Unit {0})
  rest_of item key accepted = if accepted then take_item ports item key else done tt

  -- With the engine and its verdict at hand.
  pub decided :
      (item : ClipboardPayload) (key : Bytes) (c : Client X) (e e' : SyncEngine)
      (verdict : SyncDecision)
      → c.session.sync_engine ≡ some e
      → should_apply_incoming item e ≡ (verdict, e')
      → apply_incoming ports item key c
        ≡ rest_of item key verdict.accepted
            (record c { session = record c.session { sync_engine = some e' } })
  unfolding apply_incoming
  decided item key c e e' verdict h v =
      bind_returned _ _ c c e (engine_found c e h)
      ∙ bind_returned _ _ c _ tt (write_engine_step _ c)
      ∙ ap
          (λ (r : SyncDecision × SyncEngine).
            rest_of item key r.0.accepted
              (record c { session = record c.session { sync_engine = some r.1 } }))
          v

  pub accepts :
      (item : ClipboardPayload) (e : SyncEngine)
      → (item.source_device_id == e.local_device_id) ≡ false
      → has item.item_id e.recently_seen ≡ false
      → should_apply_incoming item e ≡ (accept, mark_seen item.item_id e)
  unfolding should_apply_incoming
  accepts item e away new = rw (away, new) refl

  pub refuses :
      (item : ClipboardPayload) (e : SyncEngine)
      → (item.source_device_id == e.local_device_id) ≡ false
      → has item.item_id e.recently_seen ≡ true
      → should_apply_incoming item e ≡ (refuse "duplicate_item", e)
  unfolding should_apply_incoming
  refuses item e away seen = rw (away, seen) refl

  refused_then :
      (item : ClipboardPayload) (key : Bytes) (c : Client X) (e : SyncEngine)
      → c.session.sync_engine ≡ some e
      → (item.source_device_id == e.local_device_id) ≡ false
      → has item.item_id e.recently_seen ≡ true
      → apply_incoming ports item key c
        ≡ (returned tt, record c { session = record c.session { sync_engine = some e } })
  unfolding done
  refused_then item key c e h away seen = decided item key c e e _ h (refuses item e away seen)

  abbrev sealed_of : ClipboardPayload → CipherEnvelope
  sealed_of item = record { nonce = item.nonce; ciphertext = item.ciphertext }

  -- The client after an item that it accepted and could not decrypt.
  abbrev pub after_failure : ClipboardPayload → SyncEngine → X → Client X → Client X
  after_failure item e x c = record c {
    session = record c.session { sync_engine = some (mark_seen item.item_id e) };
    history = push item c.history;
    outside = x;
  }

  failed_first :
      (item : ClipboardPayload) (key : Bytes) (c : Client X) (e : SyncEngine) (message : String)
      (x : X)
      → c.session.sync_engine ≡ some e
      → (item.source_device_id == e.local_device_id) ≡ false
      → has item.item_id e.recently_seen ≡ false
      → ports.crypto.decrypt_clipboard key (sealed_of item) c.outside ≡ (thrown message, x)
      → apply_incoming ports item key c ≡ (thrown message, after_failure item e x c)
  unfolding take_item remember_item
  failed_first item key c e message x h away new failed =
      decided item key c e _ accept h (accepts item e away new)
      ∙ bind_returned _ _ _ _ tt (changes_step _ _)
      ∙ bind_thrown _ _ _ _ message (asks_thrown _ _ x message failed)

  -- An item that the engine accepts and that cannot be decrypted is lost: the loop that applies
  -- the offline items throws at it, with the item marked as seen and put in the history; when the
  -- loop meets it again, the item is acknowledged to the server and never shown. Premise: the
  -- engine has room.
  pub failed_item_is_lost :
      (id : String) (item : ClipboardPayload) (rest : List ClipboardPayload) (key : Bytes)
      (c : Client X) (e : SyncEngine) (message : String) (x : X)
      → c.session.sync_engine ≡ some e
      → size e.recently_seen < seen_capacity
      → (item.source_device_id == e.local_device_id) ≡ false
      → has item.item_id e.recently_seen ≡ false
      → ports.crypto.decrypt_clipboard key (sealed_of item) c.outside ≡ (thrown message, x)
      → let lost = after_failure item e x c in
        (apply_all ports id key (item ∷ rest) c ≡ (thrown message, lost))
        × (apply_all ports id key (item ∷ rest) lost
            ≡ (do asks (ports.transport.ack_item id item.item_id); apply_all ports id key rest)
                lost)
  unfolding apply_all mark_seen
  failed_item_is_lost id item rest key c e message x h room away new failed =
      let seen : has item.item_id (mark_seen item.item_id e).recently_seen ≡ true = ground (
        arith,
        has-remember item.item_id item.item_id e.recently_seen room,
        eq_refl item.item_id,
      ) in
      (
        bind_thrown _ _ c _ message (failed_first item key c e message x h away new failed),
        bind_returned _ _ _ _ tt
            (refused_then item key _ (mark_seen item.item_id e) refl away seen),
      )
