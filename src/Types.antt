-- ===== src/Types.antt =====
-- The data of the server: apps/server/src/types.ts, and the types that
-- apps/server/src/store/sharepaste-store.ts declares. Bytes are lists of numbers, an optional
-- field is an `Option`. Numbers that a client chooses are integers.
use sharepaste.Prelude.{ℕ, String, Bool, Option, List, ℤ}
use sharepaste.Map.{Map, StringSet}

pub data ClipboardKind : Type 0 where
  text image file : ClipboardKind

pub record Device : Type 0 where
  pub device_id : String
  pub group_id : String
  pub pubkey : String
  pub name : String
  pub platform : String
  pub last_seen_unix : ℕ
  pub active : Bool

pub record BindCode : Type 0 where
  pub code : String
  pub issuer_device_id : String
  pub expires_at_unix : ℕ
  pub attempts_left : ℕ

pub record BindRequest : Type 0 where
  pub request_id : String
  pub code : String
  pub issuer_device_id : String
  pub requester_device_id : String
  pub expires_at_unix : ℕ
  pub approved : Option Bool
  pub group_id : Option String
  pub sealed_group_key : Option String
  pub group_key_version : Option ℕ

pub record DeviceContext : Type 0 where
  pub device : Device
  pub group_id : String
  pub sealed_group_key : String
  pub group_key_version : ℕ

pub record Policy : Type 0 where
  pub allow_text : Bool
  pub allow_image : Bool
  pub allow_file : Bool
  pub max_file_size_bytes : ℤ
  pub version : ℕ
  pub updated_by : String
  pub updated_at_unix : ℕ

-- The fields of a policy that a client sets.
pub record PolicyPatch : Type 0 where
  pub allow_text : Bool
  pub allow_image : Bool
  pub allow_file : Bool
  pub max_file_size_bytes : ℤ

pub record ClipboardItem : Type 0 where
  pub item_id : String
  pub kind : ClipboardKind
  pub size_bytes : ℤ
  pub mime : String
  pub cipher_ref : String
  pub ciphertext : List ℕ
  pub nonce : List ℕ
  pub created_at_unix : ℤ
  pub source_device_id : String

pub record GroupState : Type 0 where
  pub group_id : String
  pub recovery_phrase_hash : String
  pub group_key_version : ℕ
  pub group_key_base64 : String
  pub policy : Policy

pub record OfflineEnvelope : Type 0 where
  pub item : ClipboardItem
  pub target_device_id : String
  pub expires_at_unix : ℕ

pub record SharePasteSnapshot : Type 0 where
  pub devices : List Device
  pub groups : List GroupState
  pub group_devices : List (String × List String)
  pub bind_codes : List BindCode
  pub bind_requests : List BindRequest
  pub offline : List (String × List OfflineEnvelope)
  pub seen_items : List (String × List String)

pub record AuditRecord : Type 0 where
  pub action : String
  pub success : Bool
  pub created_at_unix : ℕ

pub record RegisterDeviceInput : Type 0 where
  pub device_name : String
  pub platform : String
  pub pubkey : String
  pub group_id : Option String
  pub recovery_phrase : Option String

pub record RegisterDeviceResult : Type 0 where
  pub device : Device
  pub group_id : String
  pub recovery_phrase : String
  pub created_new_group : Bool
  pub sealed_group_key : String

pub record GroupKeyUpdate : Type 0 where
  pub group_id : String
  pub sealed_group_key : String
  pub group_key_version : ℕ

pub record PairingRequest : Type 0 where
  pub request_id : String
  pub requester_device_id : String
  pub requester_name : String
  pub requester_platform : String
  pub requested_at_unix : ℕ
  pub expires_at_unix : ℕ

pub data PresenceEvent : Type 0 where
  clipboard : ClipboardItem → PresenceEvent
  pairing_request : PairingRequest → PresenceEvent
  connected : ℕ → PresenceEvent
  group_key_update : GroupKeyUpdate → PresenceEvent

-- `on_event` names the stream that the callback writes to.
pub record PresenceState : Type 0 where
  pub lan_addr : Option String
  pub on_event : ℕ

pub record PushResult : Type 0 where
  pub accepted : Bool
  pub lan_targets : List String

-- The maps of `SharePasteStore`.
pub record Store : Type 0 where
  pub devices : Map Device
  pub groups : Map GroupState
  pub group_devices : Map StringSet
  pub bind_codes : Map BindCode
  pub bind_requests : Map BindRequest
  pub offline : Map (List OfflineEnvelope)
  pub presences : Map PresenceState
  pub seen_items : Map StringSet
