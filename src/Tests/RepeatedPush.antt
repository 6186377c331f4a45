-- ===== src/Tests/RepeatedPush.antt =====
-- A push of an item that the group has seen.
use sharepaste.Prelude.{◌≤◌, ◌≡◌, refl, true, [], ◌==◌, ap, is_some}
use sharepaste.Map.{get, set, empty, add, has, delete_where, map_values, get-set_self}
use sharepaste.Types.{PushResult}
use sharepaste.Env.{now_unix}
use sharepaste.Policy.{default_policy, is_item_allowed_by_policy}
use sharepaste.Exec.{World, ok, ◌>>=◌}
use sharepaste.Store.Common.{cleanup_expired, drop_expired, require_device, find_device}
use sharepaste.Store.PolicyUpdates.{get_policy}
use sharepaste.Store.Clipboard.{push_clipboard_item}
use sharepaste.Store.Behaviour.QueueLaws.{count_items}
use sharepaste.Store.Behaviour.DeliveryLaws.{queued}
use sharepaste.Store.Behaviour.DuplicateLaws.{push_clipboard_item_again}
use sharepaste.Tests.Samples.{sample_env}
use sharepaste.Tests.Worlds.{office, desk, note, office-desk}

-- The item "i" was pushed before.
abbrev later : World
later = record office { store = record office.store { seen_items = set "g" (add "i" empty) empty } }

abbrev again : World
again = (push_clipboard_item sample_env "a" note later).1

abbrev no_one : PushResult
no_one = record { accepted = true; lan_targets = [] }

accepted_again : push_clipboard_item sample_env "a" note later ≡ (ok no_one, again)
unfolding push_clipboard_item cleanup_expired drop_expired require_device find_device get_policy
    is_item_allowed_by_policy ◌>>=◌ get set empty map_values delete_where default_policy now_unix
accepted_again = refl

push_clipboard_item_again_example :
    (again.sent ≡ later.sent)
    × (count_items (λ item. item.item_id == "i") (queued "b" again)
        ≤ count_items (λ item. item.item_id == "i") (queued "b" later))
push_clipboard_item_again_example =
    push_clipboard_item_again sample_env later "a" note desk (add "i" empty) office-desk
      (get-set_self "g" (add "i" empty) empty) old no_one again accepted_again "b"
      (λ item. item.item_id == "i")
  where
    old : has "i" (add "i" empty) ≡ true
    old = ap is_some (get-set_self "i" tt empty)
