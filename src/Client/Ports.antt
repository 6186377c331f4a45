-- ===== src/Client/Ports.antt =====
-- What the client is given: the interfaces of apps/client-cli/src/core/ports.ts, as calls on the
-- state `X` of all that is outside.
use sharepaste.Prelude.{ℕ, String, Bool, Option, List, ℤ}
use sharepaste.Types.{ClipboardKind}
use sharepaste.Client.Types.{ClipboardPayload, SharePolicy, DeviceIdentity, PersistedState}
use sharepaste.Client.Task.{Outcome, Outside}

abbrev pub Bytes : Type 0
Bytes = List ℕ

pub record CipherEnvelope : Type 0 where
  pub nonce : Bytes
  pub ciphertext : Bytes

pub record DeviceRecord : Type 0 where
  pub device_id : String
  pub group_id : String
  pub pubkey : String
  pub name : String
  pub platform : String

-- The `device` and the group of a registration or a recovery. A recovery has no phrase.
pub record Registration : Type 0 where
  pub device : DeviceRecord
  pub group_id : String
  pub recovery_phrase : String
  pub sealed_group_key : String

pub record DeviceContextResult : Type 0 where
  pub device : DeviceRecord
  pub group_id : String
  pub sealed_group_key : String
  pub group_key_version : ℕ

pub record BindCodeResult : Type 0 where
  pub code : String
  pub expires_at_unix : String
  pub attempts_left : ℕ

pub record BindRequestResult : Type 0 where
  pub request_id : String
  pub expires_at_unix : String

pub record ConfirmBindResult : Type 0 where
  pub approved : Bool
  pub group_id : String
  pub sealed_group_key : String
  pub group_key_version : ℕ

pub record KeyUpdate : Type 0 where
  pub group_id : String
  pub sealed_group_key : String
  pub group_key_version : ℕ

pub record PairingNotice : Type 0 where
  pub request_id : String
  pub requester_device_id : String
  pub requester_name : String
  pub requester_platform : String
  pub requested_at_unix : ℕ
  pub expires_at_unix : ℕ

pub record RealtimeMessage : Type 0 where
  pub group_key_update : Option KeyUpdate
  pub pairing_request : Option PairingNotice
  pub clipboard : Option ClipboardPayload

pub record IncomingClipboardEvent : Type 0 where
  pub item_id : String
  pub kind : ClipboardKind
  pub mime : String
  pub source_device_id : String
  pub text : Option String
  pub saved_path : Option String

-- `ClientTransportPort`, without the event stream
pub record Transport (X : Type 0) : Type 0 where
  pub register_device : String → String → String → Outside X Registration
  pub get_device_context : String → Outside X DeviceContextResult
  pub list_devices : String → Outside X (List DeviceRecord)
  pub remove_device : String → String → Outside X Bool
  pub recover_group : String → String → String → String → Outside X Registration
  pub create_bind_code : String → Outside X BindCodeResult
  pub request_bind : String → String → Outside X BindRequestResult
  pub confirm_bind : String → String → Bool → Outside X ConfirmBindResult
  pub get_policy : String → Outside X SharePolicy
  pub update_policy : String → SharePolicy → Outside X SharePolicy
  pub push_clipboard_item : String → ClipboardPayload → Outside X Bool
  pub fetch_offline : String → ℤ → Outside X (List ClipboardPayload)
  pub ack_item : String → String → Outside X (Unit {0})

-- `PersistedStateStorePort`
pub record StateStore (X : Type 0) : Type 0 where
  pub load : Outside X (Option PersistedState)
  pub save : PersistedState → Outside X (Unit {0})
  pub clear : Outside X (Unit {0})

-- `CryptoPort`, what the client calls of it
pub record Crypto (X : Type 0) : Type 0 where
  pub create_identity : Outside X DeviceIdentity
  pub encrypt_clipboard : Bytes → Bytes → Outside X CipherEnvelope
  pub decrypt_clipboard : Bytes → CipherEnvelope → Outside X Bytes
  pub unseal_group_key_for_device : String → String → Outside X Bytes

-- `ClipboardPort`, `IncomingItemStorePort`, `ClientEventHandlers` (none where a handler is left
-- out), `LoggerPort`
pub record Surroundings (X : Type 0) : Type 0 where
  pub start_clipboard : Outside X (Unit {0})
  pub stop_clipboard : X → X
  pub write_text : String → Outside X (Unit {0})
  pub materialize : ClipboardPayload → Bytes → Outside X String
  pub on_incoming_clipboard : Option (IncomingClipboardEvent → Outside X (Unit {0}))
  pub on_pairing_request : Option (PairingNotice → Outside X (Unit {0}))
  pub info : String → X → X
  pub error : String → String → X → X

-- The part of the text of a sealed group key that `extractGroupKey` reads.
pub record SealedFields : Type 0 where
  pub group_key_base64 : Option String
  pub epk : Option String
  pub nonce : Option String
  pub ciphertext : Option String

-- What the client calls of Node: os.platform, Date.now, fs.readFile, Buffer, JSON.parse,
-- toLowerCase, and the hash and the nanoid of `makeItemId`.
pub record Platform (X : Type 0) : Type 0 where
  pub name : String
  pub date_now : Outside X ℕ
  pub read_file : String → Outside X Bytes
  pub utf8_bytes : String → Bytes
  pub utf8_text : Bytes → String
  pub base64url_bytes : String → Bytes
  pub base64url_text : Bytes → String
  pub parse_sealed : String → Outcome SealedFields
  pub lower : String → String
  -- createHash("sha256").update(content).update(String(time)).digest("hex").slice(0, 16)
  pub digest_16 : Bytes → ℕ → String
  pub nanoid : ℕ → Outside X String

pub record Ports (X : Type 0) : Type 0 where
  pub transport : Transport X
  pub state_store : StateStore X
  pub crypto : Crypto X
  pub around : Surroundings X
  pub node : Platform X
  pub reset_stale_state : Bool
