-- ===== src/Client/Types.antt =====
-- packages/client-core/src/types.ts, and `PersistedState` of
-- apps/client-cli/src/core/state-store.ts.
use sharepaste.Prelude.{ℕ, String, Bool, Option, List, ℤ}
use sharepaste.Types.{ClipboardKind}

pub record ClipboardPayload : Type 0 where
  pub item_id : String
  pub kind : ClipboardKind
  pub mime : String
  pub size_bytes : ℤ
  pub created_at_unix : ℤ
  pub source_device_id : String
  pub cipher_ref : String
  pub ciphertext : List ℕ
  pub nonce : List ℕ

pub record SharePolicy : Type 0 where
  pub allow_text : Bool
  pub allow_image : Bool
  pub allow_file : Bool
  pub max_file_size_bytes : ℤ
  pub version : ℕ

pub record DeviceIdentity : Type 0 where
  pub sign_public_key : String
  pub sign_private_key : String
  pub wrap_public_key : String
  pub wrap_private_key : String

pub record PersistedState : Type 0 where
  pub device_id : String
  pub group_id : String
  pub device_name : String
  pub platform : String
  pub recovery_phrase : String
  pub sealed_group_key : String
  pub identity : DeviceIdentity
  pub group_key_base64 : Option String
  pub group_key_version : Option ℕ
