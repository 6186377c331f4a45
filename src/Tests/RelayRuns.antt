-- ===== src/Tests/RelayRuns.antt =====
-- The theorems on what one client sends and another reads, at a payload that the desk sends and the
-- phone fetches.
use sharepaste.Prelude.{◌≡◌, ◌≤◌, refl, true, false, some, arith, length, pos, ◌==◌, List}
use sharepaste.Map.{get, has, set, empty, keys, size, delete_where, map_values, get-set_self}
use sharepaste.Env.{now_unix}
use sharepaste.Exec.{World, ◌>>=◌}
use sharepaste.Policy.{default_policy, is_item_allowed_by_policy}
use sharepaste.SeenItems.{remember}
use sharepaste.Store.Common.{
  cleanup_expired, drop_expired, require_device, find_device, enqueue_offline, queue_of,
}
use sharepaste.Store.PolicyUpdates.{get_policy}
use sharepaste.Store.Clipboard.{push_clipboard_item, accept_item, deliver, deliver_to}
use sharepaste.Store.Behaviour.QueueLaws.{pending}
use sharepaste.Handlers.Errors.{run_unary}
use sharepaste.Handlers.Unary.{push_clipboard_item_handler}
use sharepaste.Handlers.Items.{to_clipboard_item, kind_from_proto}
use sharepaste.Client.Types.{ClipboardPayload}
use sharepaste.Client.Task.{returned}
use sharepaste.Client.Grpc.Messages.{item_message, client_kind_to_proto}
use sharepaste.Client.Grpc.Server.{server_push, server_fetch, call}
use sharepaste.Client.Grpc.Relay.{count_payloads, pushed_payload_is_fetched, relayed, relayed_same}
use sharepaste.Tests.Samples.{sample_env}
use sharepaste.Tests.Worlds.{office, members, desk, phone, payload, office-desk}
use sharepaste.Tests.ClientPorts.{sample_wire}

relayed_same_example : relayed payload ≡ payload
relayed_same_example = relayed_same payload

abbrev message : ClipboardPayload
message = record payload { item_id = "n" }

abbrev sent_world : World
sent_world = (server_push sample_env 3 sample_wire "a" message office).1

-- The push is accepted; afterwards the phone is there, and nothing in its queue has expired.
message_sent :
    (server_push sample_env 3 sample_wire "a" message office ≡ (returned true, sent_world))
    × (get "b" sent_world.devices ≡ some phone)
    × (pending sample_env "b" sent_world ≡ queue_of (get "b" sent_world.offline))
    × (length (pending sample_env "b" sent_world) ≤ 100)
unfolding server_push call push_clipboard_item_handler run_unary push_clipboard_item cleanup_expired
    drop_expired require_device find_device get_policy is_item_allowed_by_policy accept_item deliver
    deliver_to enqueue_offline remember ◌>>=◌ get set empty keys map_values delete_where size
    default_policy now_unix to_clipboard_item kind_from_proto item_message client_kind_to_proto
message_sent = (refl, refl, refl, omega arith)

listed : has "b" members ≡ true
unfolding get set empty
listed = refl

unseen : has "n" (empty {V = Unit {0}}) ≡ false
unfolding get empty
unseen = refl

away : has "b" office.presences ≡ false
unfolding get empty
away = refl

pushed_payload_is_fetched_example :
    (payloads : List ClipboardPayload) × ((server_fetch sample_env 3 sample_wire "b"
        (pos 100)
        sent_world).0
      ≡ returned payloads)
    × (1 ≤ count_payloads (λ p. p.item_id == "n") payloads)
pushed_payload_is_fetched_example =
    pushed_payload_is_fetched sample_env 3 sample_wire (λ w x. refl) office "a" message desk empty
      members office-desk (get-set_self "g" members empty) (get-set_self "g" empty empty) unseen "b"
      listed refl away true sent_world message_sent.0 phone message_sent.1 refl message_sent.2
      message_sent.3 (λ p. p.item_id == "n") refl
