-- ===== src/Client/Crypto/Binary.antt =====
-- The binary that `RustCryptoBridge` runs (crates/client-runtime/src/bin/bridge.rs and crypto.rs),
-- for the encryption and decryption of clipboard items.
use sharepaste.Prelude.{
  ℕ, String, true, false, Option, none, some, ◌++◌, length, take, leb, nat_eq, if◌then◌else◌,
}
use Prim.Native.String.{◌++◌ as ◌<>◌}
use sharepaste.Client.Task.{Outcome, returned, thrown}
use sharepaste.Client.Ports.{Bytes, CipherEnvelope}
use sharepaste.Client.StateFile.{Json, field, no_fields, text_value, object}
use sharepaste.Client.Crypto.Node.{NodeCrypto, and_then, drop, body_length, tag_length}
use sharepaste.Client.Crypto.Agent.{
  RustBridge, BridgeCall, encrypt_clipboard, decrypt_clipboard, BridgeResponse, success, failure,
  Spawned,
}

-- How a run of the binary ends; on a panic nothing is printed.
pub data Ending : Type 0 where
  answered : Json → Ending
  failed : String → Ending
  panicked : Ending

-- The crates that the binary uses, the system that starts it, and its other operations.
pub record Crates : Type 0 where
  -- `Aes256Gcm::encrypt`, the text of which is the body and the tag, and `decrypt`
  pub encrypt : Bytes → Bytes → Bytes → Outcome (Bytes × Bytes)
  pub decrypt : Bytes → Bytes → Bytes → Bytes → Outcome Bytes
  -- `random_bytes(12)` in the run for a key and a plaintext
  pub nonce_for : String → String → Bytes
  -- URL_SAFE_NO_PAD
  pub encode : Bytes → String
  pub decode : String → Outcome Bytes
  -- `write_json`, and what Node makes of it
  pub print : BridgeResponse → String
  pub parse : String → Outcome BridgeResponse
  pub trim : String → String
  pub decimal : ℕ → String
  pub panic_text : String
  -- The error of spawnSync, if the binary cannot be run for the call.
  pub spawn_error : BridgeCall → Option String
  pub others : BridgeCall → Ending

abbrev pub key_length : ℕ
key_length = 32

abbrev pub nonce_length : ℕ
nonce_length = 12

abbrev pub aead_failed : String
aead_failed = "authenticated encryption operation failed"

-- .map_err(|_| CryptoError::Aead)
abbrev pub or_aead : {A : Type 0} → Outcome A → Outcome A
or_aead (returned a) = returned a
or_aead (thrown message) = thrown aead_failed

abbrev pub envelope_json : Crates → CipherEnvelope → Json
envelope_json crates envelope = object (
    field "nonce" (text_value (crates.encode envelope.nonce))
      (field "ciphertext" (text_value (crates.encode envelope.ciphertext)) no_fields))

abbrev pub bytes_json : Crates → Bytes → Json
bytes_json crates bytes = object (field "bytes" (text_value (crates.encode bytes)) no_fields)

abbrev pub ended : {A : Type 0} → (A → Json) → Outcome A → Ending
ended json (returned a) = answered (json a)
ended json (thrown message) = failed message

module _ (crates : Crates) where
  abbrev pub wrong_length : {A : Type 0} → Bytes → Outcome A
  wrong_length key =
      thrown ("invalid key length for group_key: expected 32, got " <> crates.decimal (length key))

  -- `CryptoRuntime::encrypt_clipboard`
  unfoldable pub runtime_encrypt : Bytes → Bytes → Bytes → Outcome CipherEnvelope
  runtime_encrypt nonce key plaintext =
      if nat_eq (length key) key_length
      then or_aead (
          and_then (crates.encrypt key nonce plaintext)
            λ s. returned (record { nonce = nonce; ciphertext = s.0 ++ s.1 }))
      else wrong_length key

  -- The end of `CryptoRuntime::decrypt_clipboard`, with a nonce of the right length.
  unfoldable pub runtime_decrypt : Bytes → CipherEnvelope → Outcome Bytes
  runtime_decrypt key envelope =
      let all = envelope.ciphertext in
      let cut = body_length (length all) in
      if leb tag_length (length all)
      then or_aead (crates.decrypt key envelope.nonce (take cut all) (drop cut all))
      else thrown aead_failed

  -- `Nonce::from_slice` panics on a nonce of another length.
  unfoldable pub decrypt_ending : Bytes → CipherEnvelope → Ending
  unfolding runtime_decrypt
  decrypt_ending key envelope =
      if nat_eq (length key) key_length
      then (if nat_eq (length envelope.nonce) nonce_length
          then ended (bytes_json crates) (runtime_decrypt key envelope)
          else panicked)
      else ended (bytes_json crates) (wrong_length key)

  abbrev pub ended_with : {A : Type 0} → Outcome A → (A → Ending) → Ending
  ended_with (returned a) f = f a
  ended_with (thrown message) f = failed message

  -- `run`
  unfoldable pub run_binary : BridgeCall → Ending
  unfolding runtime_encrypt decrypt_ending
  run_binary (encrypt_clipboard key plaintext) = ended_with (crates.decode key) λ k.
      ended_with (crates.decode plaintext)
        λ p. ended (envelope_json crates) (runtime_encrypt (crates.nonce_for key plaintext) k p)
  run_binary (decrypt_clipboard key nonce ciphertext) = ended_with (crates.decode key) λ k.
      ended_with (crates.decode nonce) λ n.
        ended_with (crates.decode ciphertext)
          λ c. decrypt_ending k (record { nonce = n; ciphertext = c })
  run_binary call = crates.others call

  -- `main`, with its exit status
  abbrev pub exited : Ending → Spawned
  exited (answered json) = record {
    error = none;
    exits_well = true;
    status_text = "0";
    stdout = crates.print (success json);
    stderr = "";
  }
  exited (failed message) = record {
    error = none;
    exits_well = false;
    status_text = "1";
    stdout = crates.print (failure message);
    stderr = "";
  }
  exited panicked = record {
    error = none;
    exits_well = false;
    status_text = "101";
    stdout = "";
    stderr = crates.panic_text;
  }

  abbrev pub spawned : Option String → Ending → Spawned
  spawned none ending = exited ending
  spawned (some message) ending = record {
    error = some message;
    exits_well = false;
    status_text = "null";
    stdout = "";
    stderr = "";
  }

  -- The bridge to this binary.
  unfoldable pub bridge_to : NodeCrypto → RustBridge
  unfolding run_binary
  bridge_to node = record {
    spawn = λ call. spawned (crates.spawn_error call) (run_binary call);
    parse_response = crates.parse;
    trim = crates.trim;
    base64url_text = node.base64url_text;
    base64url_bytes = node.base64url_bytes;
  }
