-- ===== src/Tests/ServerRuns.antt =====
-- The theorems on single operations of the server at inputs that meet their hypotheses.
use sharepaste.SeenItems.{remember}
use sharepaste.Policy.{default_policy, is_item_allowed_by_policy}
use sharepaste.Env.{now_unix}
use sharepaste.Prelude.{
  ◌≤◌, ◌≡◌, refl, true, false, some, List, [], ◌∷◌, pos, length, map, arith, ◌==◌,
}
use sharepaste.Map.{
  get, set, empty, has, delete, delete_where, get-set_self, keys, map_values, size,
}
use sharepaste.Types.{ClipboardItem, BindRequest, PushResult}
use sharepaste.Exec.{World, ok, err, bind_request_expired, policy_version_conflict, ◌>>=◌}
use sharepaste.Store.PolicyUpdates.{get_policy, update_policy}
use sharepaste.Store.Pairing.{confirm_bind, drop_request, write_request}
use sharepaste.Store.Clipboard.{
  fetch_offline, push_clipboard_item, deliver, deliver_to, accept_item,
}
use sharepaste.Store.Common.{
  cleanup_expired, require_device, drop_expired, find_device, enqueue_offline,
}
use sharepaste.Store.Behaviour.PolicyLaws.{update_policy_twice, updated, returns_ok}
use sharepaste.Store.Behaviour.CodeLaws.{granted, granted-le, attempts}
use sharepaste.Store.Behaviour.RequestLaws.{confirm_bind_once}
use sharepaste.Store.Behaviour.QueueLaws.{
  in_order, count_items, item_of, pending, fetch_offline-oldest_first, fetch_offline_complete,
}
use sharepaste.Store.Behaviour.DeliveryLaws.{queued}
use sharepaste.Store.Behaviour.PushLaws.{push_clipboard_item-reaches}
use sharepaste.Tests.Samples.{sample_env}
use sharepaste.Tests.Worlds.{
  office, desk, phone, home, members, note, request, generous, office-desk, office-phone,
  office-home,
}

abbrev renamed_policy : World
renamed_policy = (update_policy sample_env "a" (pos 1) generous office).1

first_returns : returns_ok (update_policy sample_env "a" (pos 1) generous office).0 ≡ true
unfolding update_policy require_device find_device ◌>>=◌ get set empty default_policy
first_returns = refl

update_policy_twice_example :
    (update_policy sample_env "a" (pos 1) generous renamed_policy
      ≡ (err policy_version_conflict, renamed_policy))
    × (get_policy "a" renamed_policy
        ≡ (ok (updated sample_env desk home generous office), renamed_policy))
update_policy_twice_example =
    update_policy_twice sample_env "a" office desk home office-desk refl office-home (pos 1)
      generous generous first_returns

granted-le_example :
    granted sample_env "x" ("c" ∷ "c" ∷ "b" ∷ []) office ≤ attempts (get "x" office.bind_codes)
granted-le_example = granted-le sample_env "x" ("c" ∷ "c" ∷ "b" ∷ []) office

abbrev rejected : BindRequest
rejected = record request { approved = some false }

abbrev after_rejection : World
after_rejection = (confirm_bind sample_env "r" "a" false office).1

rejection : confirm_bind sample_env "r" "a" false office ≡ (ok rejected, after_rejection)
unfolding confirm_bind cleanup_expired drop_expired write_request drop_request ◌>>=◌ get set empty
    delete delete_where now_unix
rejection = refl

confirm_bind_once_example :
    (confirm_bind sample_env "r" "a" true after_rejection).0 ≡ err bind_request_expired
confirm_bind_once_example =
    confirm_bind_once sample_env "r" "a" false office rejected after_rejection rejection "a" true

fetch_offline-oldest_first_example :
    (items : List ClipboardItem) × ((fetch_offline sample_env "b" (pos 1) office).0 ≡ ok items)
    × (in_order items ≡ true)
    × (length items ≤ 1)
fetch_offline-oldest_first_example =
    fetch_offline-oldest_first sample_env "b" office phone office-phone refl 1

two_pending : length (pending sample_env "b" office) ≤ 2
unfolding get set empty now_unix
two_pending = omega arith

fetch_offline_complete_example :
    (items : List ClipboardItem) × ((fetch_offline sample_env "b" (pos 2) office).0 ≡ ok items)
    × (count_items (λ item. item.item_id == "j") items
        ≡ count_items (λ item. item.item_id == "j") (map item_of (pending sample_env "b" office)))
fetch_offline_complete_example =
    fetch_offline_complete sample_env "b" office phone office-phone refl 2
      (λ item. item.item_id == "j") two_pending

abbrev new_note : ClipboardItem
new_note = record note { item_id = "n" }

abbrev reached_all : PushResult
reached_all = record { accepted = true; lan_targets = [] }

abbrev after_push : World
after_push = (push_clipboard_item sample_env "a" new_note office).1

push_returns : push_clipboard_item sample_env "a" new_note office ≡ (ok reached_all, after_push)
unfolding push_clipboard_item cleanup_expired drop_expired require_device find_device get_policy
    is_item_allowed_by_policy accept_item deliver deliver_to enqueue_offline remember ◌>>=◌ get set
    empty keys map_values delete_where size default_policy now_unix
push_returns = refl

listed : has "b" members ≡ true
unfolding get set empty
listed = refl

unseen : has "n" (empty {V = Unit {0}}) ≡ false
unfolding get empty
unseen = refl

away : has "b" office.presences ≡ false
unfolding get empty
away = refl

push_clipboard_item-reaches_example :
    1 ≤ count_items (λ item. item.item_id == "n") (queued "b" after_push)
push_clipboard_item-reaches_example =
    push_clipboard_item-reaches sample_env office "a" new_note desk empty members office-desk
      (get-set_self "g" members empty) (get-set_self "g" empty empty) unseen "b" listed refl away
      reached_all after_push push_returns (λ item. item.item_id == "n") refl
