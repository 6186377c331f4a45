-- ===== src/Client/Grpc/Relay.antt =====
-- From one client to another by way of the server (apps/client-cli/src/core/grpc-client.ts,
-- apps/server/src/services/handlers.ts, apps/server/src/store/sharepaste-store.ts).
use sharepaste.Prelude.{
  ℕ, suc, ◌≤◌, ◌≡◌, refl, sym, ap, subst, ◌∙◌, String, Bool, true, false, some, List, [], ◌∷◌,
  arith, map, length, ◌==◌, pos, if◌then◌else◌,
}
use sharepaste.Map.{get, has, StringSet}
use sharepaste.Types.{Device, ClipboardItem, ClipboardKind, text, image, file, PushResult}
use sharepaste.Env.{Env}
use sharepaste.Exec.{World, Result, ok, err, ◌>>=◌}
use sharepaste.Handlers.Errors.{run_unary, grpc_code, details_of}
use sharepaste.Handlers.Items.{
  to_clipboard_item, from_clipboard_item, kind_from_proto, kind_to_proto,
}
use sharepaste.Handlers.Unary.{push_clipboard_item_handler, fetch_offline_handler}
use sharepaste.Store.Common.{queue_of}
use sharepaste.Store.Clipboard.{push_clipboard_item, fetch_offline}
use sharepaste.Store.Behaviour.QueueLaws.{count_items, item_of, pending, fetch_offline_complete}
use sharepaste.Store.Behaviour.DeliveryLaws.{queued}
use sharepaste.Store.Behaviour.PushLaws.{push_clipboard_item-reaches}
use sharepaste.Client.Types.{ClipboardPayload}
use sharepaste.Client.Task.{Outcome, returned, thrown}
use sharepaste.Client.Grpc.Messages.{
  item_message, payload_of, client_kind_to_proto, client_kind_from_proto,
}
use sharepaste.Client.Grpc.Server.{Wire, call, server_push, server_fetch}

-- What another client reads of a payload that the server kept.
abbrev pub relayed : ClipboardPayload → ClipboardPayload
relayed p = payload_of (from_clipboard_item (to_clipboard_item (item_message p)))

kind_relayed :
    (kind : ClipboardKind)
    → client_kind_from_proto (kind_to_proto (kind_from_proto (client_kind_to_proto kind))) ≡ kind
unfolding client_kind_from_proto kind_to_proto kind_from_proto client_kind_to_proto
kind_relayed text = refl
kind_relayed image = refl
kind_relayed file = refl

-- A payload that is written to a message, read by the server, written to a message again and read
-- by a client is the same.
pub relayed_same : (p : ClipboardPayload) → relayed p ≡ p
unfolding payload_of from_clipboard_item to_clipboard_item item_message
relayed_same p = λ i. record p { kind = kind_relayed p.kind i }

relayed_id : (p : ClipboardPayload) → (to_clipboard_item (item_message p)).item_id ≡ p.item_id
unfolding to_clipboard_item item_message
relayed_id p = refl

abbrev pub count_payloads : (ClipboardPayload → Bool) → List ClipboardPayload → ℕ
count_payloads p [] = 0
count_payloads p (a ∷ rest) = if p a then suc (count_payloads p rest) else count_payloads p rest

abbrev read_item : ClipboardItem → ClipboardPayload
read_item item = payload_of (from_clipboard_item item)

count-map :
    (p : ClipboardPayload → Bool) (items : List ClipboardItem)
    → count_payloads p (map payload_of (map from_clipboard_item items))
      ≡ count_items (λ item. p (read_item item)) items
count-map p [] = refl
count-map p (a ∷ rest) = ground (arith, count-map p rest)

module _ {X : Type 0} (env : Env) (fuel : ℕ) (wire : Wire X) where
  abbrev answered : X → Result PushResult × World → Outcome Bool × X
  answered x (ok r, w) = (returned r.accepted, wire.put w x)
  answered x (err e, w) = (thrown (wire.message_of (grpc_code e) (details_of e)), wire.put w x)

  server_push-answered :
      (id : String) (p : ClipboardPayload) (x : X)
      → server_push env fuel wire id p x
        ≡ answered x
            (push_clipboard_item env id (to_clipboard_item (item_message p)) (wire.world x))
  unfolding server_push call push_clipboard_item_handler run_unary ◌>>=◌
  server_push-answered id p x = ground arith

  server_fetch-returned :
      (k : String) (x : X) (items : List ClipboardItem)
      → (fetch_offline env k (pos 100) (wire.world x)).0 ≡ ok items
      → (server_fetch env fuel wire k (pos 100) x).0
        ≡ returned (map payload_of (map from_clipboard_item items))
  unfolding server_fetch call fetch_offline_handler run_unary ◌>>=◌
  server_fetch-returned k x items e = ground arith

  pushed :
      (x : X) (r : Result PushResult × World) (b : Bool) (x1 : X)
      → answered x r ≡ (returned b, x1)
      → (q : PushResult) × (w : World) × (r ≡ (ok q, w)) × (wire.put w x ≡ x1)
  pushed x (ok q, w) b x1 h = (q, w, refl, ap (λ s. s.1) h)
  pushed x (err e, w) b x1 h =
      let bad : thrown (wire.message_of (grpc_code e) (details_of e)) ≡ returned b =
        ap (λ s. s.0) h in
      absurd (cc bad)

  -- A payload that one client pushes is fetched by another: if the push returned and the item was
  -- new to the group, then a member without a stream that fetches up to a hundred items gets it, a
  -- payload that passes each test that the pushed one passes. Premises: the sender is known, its
  -- group has its member and seen sets, the member is an active device afterwards, and of its
  -- queue, of at most a hundred items, none has expired.
  pub pushed_payload_is_fetched :
      ((w : World) (x : X) → wire.world (wire.put w x) ≡ w)
      → (x : X) (id : String) (p : ClipboardPayload) (d : Device) (seen members : StringSet)
      → get id (wire.world x).devices ≡ some d
      → get d.group_id (wire.world x).group_devices ≡ some members
      → get d.group_id (wire.world x).seen_items ≡ some seen
      → has p.item_id seen ≡ false
      → (k : String) → has k members ≡ true
      → (d.device_id == k) ≡ false
      → has k (wire.world x).presences ≡ false
      → (b : Bool) (x1 : X) → server_push env fuel wire id p x ≡ (returned b, x1)
      → (other : Device) → get k (wire.world x1).devices ≡ some other
      → other.active ≡ true
      → pending env k (wire.world x1) ≡ queue_of (get k (wire.world x1).offline)
      → length (pending env k (wire.world x1)) ≤ 100
      → (test : ClipboardPayload → Bool) → test p ≡ true
      → (payloads : List ClipboardPayload) × ((server_fetch env fuel wire k (pos 100) x1).0
          ≡ returned payloads)
        × (1 ≤ count_payloads test payloads)
  pushed_payload_is_fetched lens x id p d seen members known m s new k has_k other_k away b x1 h
        other known_k active alive short test passes =
      let (q, w1, e, same) = pushed x _ b x1 (sym (server_push-answered id p x) ∙ h) in
      let at : wire.world x1 ≡ w1 = ap wire.world (sym same) ∙ lens w1 x in
      let item = to_clipboard_item (item_message p) in
      let passes_item : test (read_item item) ≡ true = rw (relayed_same p) passes in
      let (items, got, all) =
        fetch_offline_complete env k (wire.world x1) other known_k active 100
          (λ i. test (read_item i)) short in
      let reached =
        push_clipboard_item-reaches env (wire.world x) id item d seen members known m s
          (subst (λ t. has t seen ≡ false) (sym (relayed_id p)) new) k has_k other_k away q w1 e
          (λ i. test (read_item i)) passes_item in
      let kept =
        subst (λ v. 1 ≤ count_items (λ i. test (read_item i)) (queued k v)) (sym at) reached in
      let whole = ap (λ queue. count_items (λ i. test (read_item i)) (map item_of queue)) alive in
      (
        map payload_of (map from_clipboard_item items),
        server_fetch-returned k x1 items got,
        omega (arith, count-map test items, all, whole, kept),
      )
