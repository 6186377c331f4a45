-- ===== src/Store/Snapshot.antt =====
-- `exportSnapshot` and the constructor from a snapshot (apps/server/src/store/sharepaste-store.ts).
-- Presences are not part of a snapshot.
pub mod Restored
use sharepaste.Prelude.{Option, none, some, map}
use sharepaste.Map.{empty, entries, keys, values, set_all, set_of}
use sharepaste.Types.{Store, SharePasteSnapshot}
use sharepaste.Env.{Env}
use sharepaste.Exec.{Exec, gets, ◌>>◌}
use sharepaste.Store.Common.{cleanup_expired}
use sharepaste.Store.Calls.{new_store}

unfoldable pub snapshot_of : Store → SharePasteSnapshot
snapshot_of s = record {
  devices = values s.devices;
  groups = values s.groups;
  group_devices = map (λ e. (e.0, keys e.1)) (entries s.group_devices);
  bind_codes = values s.bind_codes;
  bind_requests = values s.bind_requests;
  offline = entries s.offline;
  seen_items = map (λ e. (e.0, keys e.1)) (entries s.seen_items);
}

unfoldable pub export_snapshot : Env → Exec SharePasteSnapshot
unfolding snapshot_of
export_snapshot env = do cleanup_expired env; gets λ w. snapshot_of w.store

unfoldable pub from_snapshot : Option SharePasteSnapshot → Store
from_snapshot none = new_store
from_snapshot (some s) = record {
  devices = set_all empty (map (λ d. (d.device_id, d)) s.devices);
  groups = set_all empty (map (λ g. (g.group_id, g)) s.groups);
  group_devices = set_all empty (map (λ e. (e.0, set_of e.1)) s.group_devices);
  bind_codes = set_all empty (map (λ c. (c.code, c)) s.bind_codes);
  bind_requests = set_all empty (map (λ r. (r.request_id, r)) s.bind_requests);
  offline = set_all empty s.offline;
  presences = empty;
  seen_items = set_all empty (map (λ e. (e.0, set_of e.1)) s.seen_items);
}
