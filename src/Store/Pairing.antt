-- ===== src/Store/Pairing.antt =====
-- Bind codes and bind requests (apps/server/src/store/sharepaste-store.ts).
use sharepaste.Prelude.{
  ℕ, zero, suc, ◌+◌, ◌-◌, String, Bool, true, false, Option, none, some, List, [], ◌∷◌, ◌==◌,
  if◌then◌else◌, not, leb,
}
use sharepaste.Map.{StringSet, get, has, set, delete, add, keys, update}
use sharepaste.Types.{
  Device, BindCode, BindRequest, GroupState, PresenceState, pairing_request, group_key_update,
}
use sharepaste.Env.{Env, now_unix, make_request_id, generate_bind_code, generate_group_key_base64}
use sharepaste.Exec.{
  Exec, bind_code_expired, bind_code_exhausted, bind_request_expired, already_bound, not_authorized,
  out_of_fuel, pure, raise, lift, or_fail, guard, gets, draw, modify, emit, ◌>>=◌, ◌>>◌,
}
use sharepaste.Store.Common.{
  max_bind_attempts, bind_ttl_seconds, demand, cleanup_expired, require_device,
  assert_group_capacity, build_device_context, build_group_key_update,
}

-- do code = generateBindCode() while (bindCodes.has(code)), with fuel
unfoldable pub unused_code : Env → ℕ → Exec String
unused_code env zero = raise out_of_fuel
unused_code env (suc fuel) = do
  code ← draw (generate_bind_code env)
  taken ← gets λ w. has code w.bind_codes
  elim taken [ true ↦ unused_code env fuel | false ↦ pure code ]

unfoldable pub create_bind_code : Env → ℕ → String → Exec BindCode
create_bind_code env fuel device_id = do
  issuer ← require_device device_id
  cleanup_expired env
  code ← unused_code env fuel
  now ← draw (now_unix env)
  let bind_code : BindCode = record {
    code = code;
    issuer_device_id = issuer.device_id;
    expires_at_unix = now + bind_ttl_seconds;
    attempts_left = max_bind_attempts;
  }
  modify λ s. record s { bind_codes = set code bind_code s.bind_codes }
  pure bind_code

-- A code that is spent is deleted before the error is thrown.
unfoldable pub use_attempt : String → BindCode → Exec (Unit {0})
use_attempt code bind_code =
    if leb bind_code.attempts_left 0
    then (do
      modify λ s. record s { bind_codes = delete code s.bind_codes }
      raise bind_code_exhausted)
    else modify λ s. record s {
      bind_codes =
          set code (record bind_code { attempts_left = bind_code.attempts_left - 1 }) s.bind_codes;
    }

unfoldable pub notify_issuer : Env → Option PresenceState → BindRequest → Device → Exec (Unit {0})
notify_issuer env none request requester = pure tt
notify_issuer env (some presence) request requester = do
  now ← draw (now_unix env)
  emit presence.on_event (
      pairing_request (record {
        request_id = request.request_id;
        requester_device_id = requester.device_id;
        requester_name = requester.name;
        requester_platform = requester.platform;
        requested_at_unix = now;
        expires_at_unix = request.expires_at_unix;
      }))

unfoldable pub request_bind : Env → String → String → Exec BindRequest
request_bind env code requester_device_id = do
  cleanup_expired env
  requester ← require_device requester_device_id
  found ← gets λ w. get code w.bind_codes
  bind_code ← lift (or_fail found bind_code_expired)
  now ← draw (now_unix env)
  lift (guard bind_code_expired (not (leb bind_code.expires_at_unix now)))
  use_attempt code bind_code
  issuer ← require_device bind_code.issuer_device_id
  lift (guard already_bound (not (issuer.group_id == requester.group_id)))
  request_id ← draw (make_request_id env)
  let request : BindRequest = record {
    request_id = request_id;
    code = code;
    issuer_device_id = issuer.device_id;
    requester_device_id = requester.device_id;
    expires_at_unix = bind_code.expires_at_unix;
    approved = none;
    group_id = none;
    sealed_group_key = none;
    group_key_version = none;
  }
  modify λ s. record s { bind_requests = set request_id request s.bind_requests }
  presence ← gets λ w. get issuer.device_id w.presences
  notify_issuer env presence request requester
  pure request

-- `continue` for a member that is not there, not active or not connected.
unfoldable pub notify_member : Env → Option PresenceState → Option Device → Exec (Unit {0})
notify_member env none member = pure tt
notify_member env (some presence) none = pure tt
notify_member env (some presence) (some member) =
    if member.active
    then (do
      update ← build_group_key_update env member
      emit presence.on_event (group_key_update update))
    else pure tt

unfoldable pub notify_members : Env → List String → Exec (Unit {0})
notify_members env [] = pure tt
notify_members env (id ∷ ids) = do
  presence ← gets λ w. get id w.presences
  member ← gets λ w. get id w.devices
  notify_member env presence member
  notify_members env ids

-- The members of a group, or none: `groupDevices.get(id) ?? []`
abbrev pub members_of : Option StringSet → List String
members_of none = []
members_of (some members) = keys members

unfoldable pub write_request : String → BindRequest → Exec (Unit {0})
write_request request_id request =
    modify λ s. record s { bind_requests = set request_id request s.bind_requests }

unfoldable pub drop_request : String → Exec (Unit {0})
drop_request request_id = modify λ s. record s { bind_requests = delete request_id s.bind_requests }

-- The requester leaves its group for the issuer's.
unfoldable pub move_device : Env → String → Device → String → Exec (Unit {0})
move_device env requester_key requester group_id = do
  modify λ s. record s {
    group_devices = update requester.group_id (delete requester.device_id) s.group_devices;
  }
  now ← draw (now_unix env)
  modify λ s. record s {
    devices =
        set requester_key (record requester { group_id = group_id; last_seen_unix = now })
          s.devices;
    group_devices = update group_id (add requester.device_id) s.group_devices;
  }

unfoldable pub rotate_key : Env → String → Exec GroupState
rotate_key env group_id = do
  found ← gets λ w. get group_id w.groups
  group ← lift (demand found)
  key ← draw (generate_group_key_base64 env)
  let rotated : GroupState = record group {
    group_key_version = group.group_key_version + 1;
    group_key_base64 = key;
  }
  modify λ s. record s { groups = set group_id rotated s.groups }
  pure rotated

-- What follows the approval.
unfoldable pub bind_devices : Env → String → BindRequest → Exec BindRequest
bind_devices env request_id request = do
  issuer ← require_device request.issuer_device_id
  requester ← require_device request.requester_device_id
  assert_group_capacity issuer.group_id
  move_device env request.requester_device_id requester issuer.group_id
  group ← rotate_key env issuer.group_id
  let versioned : BindRequest = record request {
    group_id = some issuer.group_id;
    group_key_version = some group.group_key_version;
  }
  write_request request_id versioned
  context ← build_device_context env issuer
  let sealed : BindRequest = record versioned { sealed_group_key = some context.sealed_group_key }
  write_request request_id sealed
  members ← gets λ w. members_of (get issuer.group_id w.group_devices)
  notify_members env members
  drop_request request_id
  pure sealed

unfoldable pub confirm_bind : Env → String → String → Bool → Exec BindRequest
confirm_bind env request_id issuer_device_id approve = do
  cleanup_expired env
  found ← gets λ w. get request_id w.bind_requests
  request ← lift (or_fail found bind_request_expired)
  now ← draw (now_unix env)
  lift (guard bind_request_expired (not (leb request.expires_at_unix now)))
  lift (guard not_authorized (request.issuer_device_id == issuer_device_id))
  let answered : BindRequest = record request { approved = some approve }
  write_request request_id answered
  if approve
      then bind_devices env request_id answered
      else (do drop_request request_id; pure answered)
