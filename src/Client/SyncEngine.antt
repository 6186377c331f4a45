-- ===== src/Client/SyncEngine.antt =====
-- packages/client-core/src/core/sync-engine.ts
pub mod Duplicates
use sharepaste.Prelude.{String, Bool, true, false, Option, none, some, if◌then◌else◌, ◌==◌}
use sharepaste.Map.{StringSet, has, empty}
use sharepaste.SeenItems.{remember}
use sharepaste.Client.Types.{ClipboardPayload, SharePolicy}
use sharepaste.Client.PolicyEngine.{is_allowed_by_policy}

pub record SyncDecision : Type 0 where
  pub accepted : Bool
  pub reason : Option String

pub record SyncEngine : Type 0 where
  pub local_device_id : String
  pub recently_seen : StringSet

unfoldable pub new_engine : String → SyncEngine
new_engine local_device_id = record { local_device_id = local_device_id; recently_seen = empty }

unfoldable pub mark_seen : String → SyncEngine → SyncEngine
mark_seen item_id e = record e { recently_seen = remember item_id e.recently_seen }

abbrev pub accept : SyncDecision
accept = record { accepted = true; reason = none }

abbrev pub refuse : String → SyncDecision
refuse reason = record { accepted = false; reason = some reason }

unfoldable pub should_send : ClipboardPayload → SharePolicy → SyncEngine → SyncDecision × SyncEngine
should_send payload policy e =
    if is_allowed_by_policy policy payload
    then (if has payload.item_id e.recently_seen
        then (refuse "duplicate_item", e)
        else (accept, mark_seen payload.item_id e))
    else (refuse "blocked_by_policy", e)

unfoldable pub should_apply_incoming : ClipboardPayload → SyncEngine → SyncDecision × SyncEngine
should_apply_incoming payload e =
    if payload.source_device_id == e.local_device_id
    then (refuse "loopback", e)
    else if has payload.item_id e.recently_seen
    then (refuse "duplicate_item", e)
    else (accept, mark_seen payload.item_id e)
