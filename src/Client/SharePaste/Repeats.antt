-- ===== src/Client/SharePaste/Repeats.antt =====
-- Items that come in twice (apps/client-cli/src/core/sharepaste-client.ts).
use sharepaste.Prelude.{
  ◌≡◌, refl, sym, ap, ◌∙◌, subst, String, Bool, true, false, Option, none, some, arith, ◌<◌,
  eq_refl, ◌==◌,
}
use sharepaste.Types.{ClipboardKind, text, image, file}
use sharepaste.Map.{has, size}
use sharepaste.SeenItems.{seen_capacity}
use sharepaste.SeenItems.Bounds.{has-remember}
use sharepaste.Client.Types.{ClipboardPayload}
use sharepaste.Client.Session.{ClientSession}
use sharepaste.Client.SyncEngine.{
  SyncEngine, SyncDecision, mark_seen, should_apply_incoming, accept, refuse,
}
use sharepaste.Client.Task.{
  Client, Task, Outcome, Outside, returned, thrown, done, asks, changes, ◌>>=◌,
}
use sharepaste.Client.Task.Outcomes.{
  Leaves, Leaves-done, Leaves-bind, Leaves-asks, Leaves-changes_last,
}
use sharepaste.Client.Ports.{Ports, Bytes, IncomingClipboardEvent}
use sharepaste.Client.SharePaste.Items.{remember_item, tell, show_item, take_item, apply_incoming}
use sharepaste.Client.SharePaste.Losses.{decided, accepts, refuses, rest_of}

-- The method leaves the session as it was.
abbrev KeepsSession : {X A : Type 0} → Task (Client X) A → Type 0
KeepsSession m =
    (s : ClientSession) (c : Client _)
    → c.session ≡ s
    → Leaves (λ c'. c'.session ≡ s) (λ c'. c'.session ≡ s) (m c)

module _ {X A : Type 0} where
  bind-KeepsSession :
      {B : Type 0} (m : Task (Client X) A) (f : A → Task (Client X) B)
      → KeepsSession m
      → ((a : A) → KeepsSession (f a))
      → KeepsSession (m >>= f)
  bind-KeepsSession m f km kf s c h =
      Leaves-bind f (λ c'. c'.session ≡ s) m c (km s c h) λ a c' h'. kf a s c' h'

  asks-KeepsSession : (call : Outside X A) → KeepsSession (asks call)
  asks-KeepsSession call s c h = Leaves-asks call c (λ x. h) (λ x. h)

module _ {X : Type 0} where
  aside-KeepsSession :
      (f : Client X → Client X)
      → ((c : Client X) → (f c).session ≡ c.session)
      → KeepsSession (changes f)
  aside-KeepsSession f same s c h = Leaves-changes_last f c (same c ∙ h)

  tell-KeepsSession :
      {E : Type 0} (handler : Option (E → Outside X (Unit {0}))) (event : E)
      → KeepsSession (tell handler event)
  unfolding tell
  tell-KeepsSession none event s c h = Leaves-done tt c h
  tell-KeepsSession (some handler) event s c h = asks-KeepsSession _ s c h

module _ {X : Type 0} (ports : Ports X) where
  saved-KeepsSession :
      (f : String → Client X → Client X) (event : String → IncomingClipboardEvent)
      (item : ClipboardPayload) (plaintext : Bytes)
      → ((path : String) (c : Client X) → (f path c).session ≡ c.session)
      → KeepsSession (
          asks (ports.around.materialize item plaintext) >>= λ path.
          changes (f path) >>= λ _. tell ports.around.on_incoming_clipboard (event path))
  saved-KeepsSession f event item plaintext same =
      bind-KeepsSession _ _ (asks-KeepsSession _) λ path.
        bind-KeepsSession _ _ (aside-KeepsSession (f path) (same path))
          λ logged. tell-KeepsSession _ _

  show_item-KeepsSession :
      (item : ClipboardPayload) (plaintext : Bytes) (kind : ClipboardKind)
      → KeepsSession (show_item ports item plaintext kind)
  unfolding show_item
  show_item-KeepsSession item plaintext text =
      bind-KeepsSession _ _ (asks-KeepsSession _) λ written. tell-KeepsSession _ _
  show_item-KeepsSession item plaintext image =
      saved-KeepsSession _ _ item plaintext (λ path c. refl)
  show_item-KeepsSession item plaintext file =
      saved-KeepsSession _ _ item plaintext (λ path c. refl)

  take_item-KeepsSession :
      (item : ClipboardPayload) (key : Bytes) → KeepsSession (take_item ports item key)
  unfolding take_item remember_item
  take_item-KeepsSession item key = bind-KeepsSession _ _ (aside-KeepsSession _ (λ c. refl)) λ kept.
      bind-KeepsSession _ _ (asks-KeepsSession _)
        λ plaintext. show_item-KeepsSession item plaintext item.kind

-- The engine of the session refuses the item and stays as it is.
record Settled {X : Type 0} (item : ClipboardPayload) (c : Client X) : Type 0 where
  engine : SyncEngine
  verdict : SyncDecision
  there : c.session.sync_engine ≡ some engine
  refused : verdict.accepted ≡ false
  stays : should_apply_incoming item engine ≡ (verdict, engine)

left_session :
    {X A : Type 0} (s : ClientSession) (r : Outcome A × Client X)
    → Leaves (λ c. c.session ≡ s) (λ c. c.session ≡ s) r
    → r.1.session ≡ s
left_session s (returned a, c) h = h.left
left_session s (thrown m, c) h = h.left

looped :
    (item : ClipboardPayload) (e : SyncEngine)
    → (item.source_device_id == e.local_device_id) ≡ true
    → should_apply_incoming item e ≡ (refuse "loopback", e)
unfolding should_apply_incoming
looped item e l = rw l refl

module _ {X : Type 0} (ports : Ports X) (item : ClipboardPayload) (key : Bytes) where
  again-Settled :
      (c : Client X) → Settled item c → apply_incoming ports item key c ≡ (returned tt, c)
  unfolding done
  again-Settled c s =
      decided ports item key c s.engine s.engine s.verdict s.there s.stays
      ∙ ap
          (λ b.
            rest_of ports item key b
              (record c { session = record c.session { sync_engine = some s.engine } }))
          s.refused
      ∙ ap (λ o. (returned tt, record c { session = record c.session { sync_engine = o } }))
          (sym s.there)

  unmoved-Settled :
      (c : Client X) → Settled item c → Settled item (apply_incoming ports item key c).1
  unmoved-Settled c s = subst (λ r. Settled item r.1) (sym (again-Settled c s)) s

  taken-Settled :
      (c : Client X) (e : SyncEngine)
      → c.session.sync_engine ≡ some e
      → size e.recently_seen < seen_capacity
      → (item.source_device_id == e.local_device_id) ≡ false
      → has item.item_id e.recently_seen ≡ false
      → Settled item (apply_incoming ports item key c).1
  unfolding mark_seen
  taken-Settled c e h room away new =
      let s1 : ClientSession = record c.session { sync_engine = some (mark_seen item.item_id e) } in
      let at =
        left_session s1 _
          (take_item-KeepsSession ports item key s1 (record c { session = s1 }) refl) in
      let seen : has item.item_id (mark_seen item.item_id e).recently_seen ≡ true = ground (
        arith,
        has-remember item.item_id item.item_id e.recently_seen room,
        eq_refl item.item_id,
      ) in
      subst (λ r. Settled item r.1)
        (sym (decided ports item key c e _ accept h (accepts ports item e away new)))
        (record {
          engine = mark_seen item.item_id e;
          verdict = refuse "duplicate_item";
          there = ap (λ s. s.sync_engine) at;
          refused = refl;
          stays = refuses ports item (mark_seen item.item_id e) away seen;
        })

  first-Settled :
      (c : Client X) (e : SyncEngine) (loops seen : Bool)
      → c.session.sync_engine ≡ some e
      → size e.recently_seen < seen_capacity
      → (item.source_device_id == e.local_device_id) ≡ loops
      → has item.item_id e.recently_seen ≡ seen
      → Settled item (apply_incoming ports item key c).1
  first-Settled c e true seen h room l s = unmoved-Settled c (record {
    engine = e;
    verdict = refuse "loopback";
    there = h;
    refused = refl;
    stays = looped item e l;
  })
  first-Settled c e false true h room l s = unmoved-Settled c (record {
    engine = e;
    verdict = refuse "duplicate_item";
    there = h;
    refused = refl;
    stays = refuses ports item e l s;
  })
  first-Settled c e false false h room l s = taken-Settled c e h room l s

  -- An item that comes in again, once it was applied, failed or was refused, changes nothing: the
  -- second call returns, and neither the client nor what is outside it is touched. Premise: the
  -- engine has room.
  pub apply_incoming_again :
      (c : Client X) (e : SyncEngine)
      → c.session.sync_engine ≡ some e
      → size e.recently_seen < seen_capacity
      → let c1 = (apply_incoming ports item key c).1 in
        apply_incoming ports item key c1 ≡ (returned tt, c1)
  apply_incoming_again c e h room = again-Settled _ (first-Settled c e _ _ h room refl refl)
