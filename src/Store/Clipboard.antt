-- ===== src/Store/Clipboard.antt =====
-- Clipboard items, the offline queues and the presences (apps/server/src/store/
-- sharepaste-store.ts).
use sharepaste.Prelude.{
  ℕ, suc, ◌-◌, String, Bool, true, Option, none, some, List, [], ◌∷◌, ◌++◌, ◌==◌, if◌then◌else◌,
  not, filter, map, length, take, ℤ, pos, negsuc, ltb_ℤ,
}
use sharepaste.Map.{Map, StringSet, get, has, set, delete, keys}
use sharepaste.SeenItems.{remember}
use sharepaste.Types.{
  Device, ClipboardItem, OfflineEnvelope, PresenceState, PushResult, clipboard, connected,
}
use sharepaste.Policy.{is_item_allowed_by_policy}
use sharepaste.Env.{Env, now_unix}
use sharepaste.Exec.{
  Exec, policy_rejected, source_device_mismatch, pure, lift, guard, gets, draw, modify, emit, ◌>>=◌,
  ◌>>◌,
}
use sharepaste.Store.Common.{demand, queue_of, cleanup_expired, require_device, enqueue_offline}
use sharepaste.Store.PolicyUpdates.{get_policy}

abbrev pub lan_targets_of : Option String → List String
lan_targets_of none = []
lan_targets_of (some addr) = if addr == "" then [] else addr ∷ []

-- To a connected target by its stream, to any other by its queue.
unfoldable pub deliver_to : Env → ClipboardItem → String → Option PresenceState → Exec (List String)
deliver_to env item target none = do enqueue_offline env target item; pure []
deliver_to env item target (some presence) = do
  emit presence.on_event (clipboard item)
  pure (lan_targets_of presence.lan_addr)

unfoldable pub deliver : Env → ClipboardItem → List String → Exec (List String)
deliver env item [] = pure []
deliver env item (target ∷ targets) = do
  presence ← gets λ w. get target w.presences
  lan ← deliver_to env item target presence
  rest ← deliver env item targets
  pure (lan ++ rest)

-- An item that the group has not seen.
unfoldable pub accept_item : Env → Device → ClipboardItem → StringSet → Exec PushResult
accept_item env source item seen = do
  modify
      λ s. record s { seen_items = set source.group_id (remember item.item_id seen) s.seen_items }
  found ← gets λ w. get source.group_id w.group_devices
  members ← lift (demand found)
  lan_targets ← deliver env item (filter (λ id. not (id == source.device_id)) (keys members))
  pure (record { accepted = true; lan_targets = lan_targets })

unfoldable pub push_clipboard_item : Env → String → ClipboardItem → Exec PushResult
push_clipboard_item env device_id item = do
  cleanup_expired env
  source ← require_device device_id
  policy ← get_policy device_id
  lift (guard source_device_mismatch (item.source_device_id == source.device_id))
  lift (guard policy_rejected (is_item_allowed_by_policy policy item.kind item.size_bytes))
  found ← gets λ w. get source.group_id w.seen_items
  seen ← lift (demand found)
  if has item.item_id seen
      then pure (record { accepted = true; lan_targets = [] })
      else accept_item env source item seen

unfoldable pub ack_item : String → String → Exec Bool
ack_item device_id item_id = do
  require_device device_id
  modify λ s. record s {
    offline =
        set device_id
          (filter (λ e. not (e.item.item_id == item_id)) (queue_of (get device_id s.offline)))
          s.offline;
  }
  pure true

-- queue.sort((a, b) => a.item.createdAtUnix - b.item.createdAtUnix), which is stable
unfoldable pub insert_envelope : OfflineEnvelope → List OfflineEnvelope → List OfflineEnvelope
insert_envelope e [] = e ∷ []
insert_envelope e (x ∷ xs) =
    if ltb_ℤ x.item.created_at_unix e.item.created_at_unix
    then x ∷ insert_envelope e xs
    else e ∷ x ∷ xs

unfoldable pub sort_queue : List OfflineEnvelope → List OfflineEnvelope
unfolding insert_envelope
sort_queue [] = []
sort_queue (x ∷ xs) = insert_envelope x (sort_queue xs)

-- xs.slice(0, limit)
abbrev pub slice_to : {A : Type 0} → ℤ → List A → List A
slice_to (pos n) xs = take n xs
slice_to (negsuc n) xs = take (length xs - suc n) xs

-- The sort is in place: the stored queue, where there is one, stays sorted.
abbrev pub sort_stored : String → Map (List OfflineEnvelope) → Map (List OfflineEnvelope)
sort_stored device_id offline = elim (get device_id offline) [
  | none ↦ offline
  | some queue ↦ set device_id (sort_queue queue) offline
]

unfoldable pub fetch_offline : Env → String → ℤ → Exec (List ClipboardItem)
unfolding sort_queue
fetch_offline env device_id limit = do
  cleanup_expired env
  require_device device_id
  queue ← gets λ w. sort_queue (queue_of (get device_id w.offline))
  modify λ s. record s { offline = sort_stored device_id s.offline }
  pure (map (λ e. e.item) (slice_to limit queue))

unfoldable pub open_presence : Env → String → Option String → ℕ → Exec (Unit {0})
open_presence env device_id lan_addr on_event = do
  device ← require_device device_id
  now ← draw (now_unix env)
  modify λ s. record s {
    devices = set device_id (record device { last_seen_unix = now }) s.devices;
    presences = set device_id (record { lan_addr = lan_addr; on_event = on_event }) s.presences;
  }
  sent_at ← draw (now_unix env)
  emit on_event (connected sent_at)

unfoldable pub close_presence : String → Exec (Unit {0})
close_presence device_id = modify λ s. record s { presences = delete device_id s.presences }
