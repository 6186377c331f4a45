-- ===== src/Store/Calls.antt =====
-- The calls of `SharePasteStoreApi` (apps/server/src/store/contracts.ts) as data, and histories of
-- them on one store.
use sharepaste.Prelude.{ℕ, String, Bool, Option, List, [], ◌∷◌, ℤ}
use sharepaste.Map.{empty}
use sharepaste.Types.{PolicyPatch, ClipboardItem, RegisterDeviceInput, Store}
use sharepaste.Env.{Env}
use sharepaste.Exec.{World, Exec, pure, ◌>>◌}
use sharepaste.Store.Devices.{
  register_device, recover_group, get_device_context, list_devices, rename_device, remove_device,
}
use sharepaste.Store.Pairing.{create_bind_code, request_bind, confirm_bind}
use sharepaste.Store.PolicyUpdates.{get_policy, update_policy}
use sharepaste.Store.Clipboard.{
  push_clipboard_item, ack_item, fetch_offline, open_presence, close_presence,
}

pub data Call : Type 0 where
  registers : RegisterDeviceInput → Call
  recovers : String → String → String → String → Call
  asks_context asks_devices asks_policy creates_code : String → Call
  renames removes acks : String → String → Call
  requests_bind : String → String → Call
  confirms : String → String → Bool → Call
  updates_policy : String → ℤ → PolicyPatch → Call
  pushes : String → ClipboardItem → Call
  fetches : String → ℤ → Call
  opens : String → Option String → ℕ → Call
  closes : String → Call

-- The call, its result forgotten.
unfoldable pub perform : Env → ℕ → Call → Exec (Unit {0})
perform env fuel (registers input) = do register_device env input; pure tt
perform env fuel (recovers name platform pubkey phrase) = do
  recover_group env name platform pubkey phrase
  pure tt
perform env fuel (asks_context id) = do get_device_context env id; pure tt
perform env fuel (asks_devices id) = do list_devices env id; pure tt
perform env fuel (asks_policy id) = do get_policy id; pure tt
perform env fuel (creates_code id) = do create_bind_code env fuel id; pure tt
perform env fuel (renames id name) = do rename_device env id name; pure tt
perform env fuel (removes id target) = do remove_device env id target; pure tt
perform env fuel (acks id item) = do ack_item id item; pure tt
perform env fuel (requests_bind code id) = do request_bind env code id; pure tt
perform env fuel (confirms request id approve) = do confirm_bind env request id approve; pure tt
perform env fuel (updates_policy id version patch) = do update_policy env id version patch; pure tt
perform env fuel (pushes id item) = do push_clipboard_item env id item; pure tt
perform env fuel (fetches id limit) = do fetch_offline env id limit; pure tt
perform env fuel (opens id addr stream) = open_presence env id addr stream
perform env fuel (closes id) = close_presence id

-- new SharePasteStore()
abbrev pub new_store : Store
new_store = record {
  devices = empty;
  groups = empty;
  group_devices = empty;
  bind_codes = empty;
  bind_requests = empty;
  offline = empty;
  presences = empty;
  seen_items = empty;
}

abbrev pub boot : World
boot = record { store = new_store; draws = 0; sent = [] }

-- A call that throws leaves what it had written.
unfoldable pub serve : Env → ℕ → World → List Call → World
unfolding perform
serve env fuel w [] = w
serve env fuel w (c ∷ cs) = serve env fuel (perform env fuel c w).1 cs
