-- ===== src/Client/Crypto/Agent.antt =====
-- `CryptoAgent` and `RustCryptoBridge` (packages/client-core/src/core/crypto-agent.ts). The binary is
-- a parameter: what it prints for a request, and `JSON.parse` of that.
use Prim.Native.String.{◌++◌}
use sharepaste.Prelude.{ℕ, String, Bool, Option, none, some, ◌==◌, ◌&&◌, not, if◌then◌else◌}
use sharepaste.Client.Task.{Outcome, returned, thrown}
use sharepaste.Client.Ports.{Bytes, CipherEnvelope}
use sharepaste.Client.StateFile.{Json, field_of, text_value, object, null}
use sharepaste.Client.Crypto.Node.{
  NodeCrypto, and_then, node_generate_group_key, node_encrypt_clipboard, node_decrypt_clipboard,
  node_seal_group_key, node_unseal_group_key,
}

-- The payloads of `invoke`; bytes stand in base64url.
pub data BridgeCall : Type 0 where
  create_identity generate_group_key : BridgeCall
  encrypt_clipboard : String → String → BridgeCall
  decrypt_clipboard : String → String → String → BridgeCall
  seal_group_key_for_device unseal_group_key_for_device : String → String → BridgeCall

-- spawnSync's result: the message of `error`, the status, and what was printed.
pub record Spawned : Type 0 where
  pub error : Option String
  pub exits_well : Bool
  pub status_text : String
  pub stdout : String
  pub stderr : String

-- `BridgeResponse`
pub data BridgeResponse : Type 0 where
  success : Json → BridgeResponse
  failure : String → BridgeResponse

-- The binary and what the bridge uses of Node.
pub record RustBridge : Type 0 where
  pub spawn : BridgeCall → Spawned
  pub parse_response : String → Outcome BridgeResponse
  pub trim : String → String
  pub base64url_text : Bytes → String
  pub base64url_bytes : String → Bytes

abbrev pub or_text : String → String → String
or_text s fallback = if s == "" then fallback else s

abbrev pub result_of : BridgeResponse → Outcome Json
result_of (success result) = returned result
result_of (failure message) = thrown message

abbrev pub run_spawned : RustBridge → Spawned → Option String → Outcome Json
run_spawned rust p (some message) = thrown message
run_spawned rust p none =
    if not p.exits_well && p.stdout == ""
    then thrown (or_text (rust.trim p.stderr) ("bridge exited with code " ++ p.status_text))
    else if rust.trim p.stdout == ""
    then thrown "bridge returned no output"
    else and_then (rust.parse_response (rust.trim p.stdout)) result_of

unfoldable pub invoke : RustBridge → BridgeCall → Outcome Json
invoke rust call = let p = rust.spawn call in run_spawned rust p p.error

-- Buffer.from(undefined) throws.
abbrev pub text_from : Option Json → Outcome String
text_from (some (text_value s)) = returned s
text_from _ = thrown "ERR_INVALID_ARG_TYPE"

abbrev pub text_field : String → Json → Outcome String
text_field key (object fields) = text_from (field_of key fields)
text_field key _ = thrown "ERR_INVALID_ARG_TYPE"

-- `value.key`: undefined when the field is missing, and an error when the value is null.
abbrev property_of : String → Json → Outcome (Option Json)
property_of key null = thrown "TypeError"
property_of key (object fields) = returned (field_of key fields)
property_of key _ = returned none

module _ (rust : RustBridge) where
  abbrev pub bytes_field : String → Json → Outcome Bytes
  bytes_field key json = and_then (text_field key json) λ s. returned (rust.base64url_bytes s)

  unfoldable pub rust_encrypt_clipboard : Bytes → Bytes → Outcome CipherEnvelope
  unfolding invoke
  rust_encrypt_clipboard key plaintext =
      and_then
        (invoke rust (encrypt_clipboard (rust.base64url_text key) (rust.base64url_text plaintext)))
        λ result. and_then (bytes_field "nonce" result) λ nonce.
          and_then (bytes_field "ciphertext" result)
            λ ciphertext. returned (record { nonce = nonce; ciphertext = ciphertext })

  unfoldable pub rust_decrypt_clipboard : Bytes → CipherEnvelope → Outcome Bytes
  unfolding invoke
  rust_decrypt_clipboard key envelope =
      and_then
        (invoke rust (
          decrypt_clipboard (rust.base64url_text key) (rust.base64url_text envelope.nonce)
            (rust.base64url_text envelope.ciphertext)))
        (bytes_field "bytes")

  unfoldable pub rust_generate_group_key : Outcome Bytes
  unfolding invoke
  rust_generate_group_key = and_then (invoke rust generate_group_key) (bytes_field "bytes")

  unfoldable pub rust_unseal_group_key : String → String → Outcome Bytes
  unfolding invoke
  rust_unseal_group_key sealed private =
      and_then (invoke rust (unseal_group_key_for_device sealed private)) (bytes_field "bytes")

  -- The result is not checked to be a text.
  unfoldable pub rust_seal_group_key : Bytes → String → Outcome (Option Json)
  unfolding invoke
  rust_seal_group_key key recipient =
      and_then (invoke rust (seal_group_key_for_device (rust.base64url_text key) recipient))
        (property_of "sealed")

-- `CryptoAgent`: the Node agent, the bridge if a binary was found, and whether
-- SHAREPASTE_RUST_CRYPTO_STRICT is "1".
pub record CryptoAgent : Type 0 where
  pub node : NodeCrypto
  pub rust : Option RustBridge
  pub strict : Bool

abbrev pub fall_back : {A : Type 0} → Bool → Outcome A → Outcome A → Outcome A
fall_back strict (returned a) other = returned a
fall_back strict (thrown message) other = if strict then thrown message else other

-- The warning on the console is left out.
abbrev try_on :
    {A : Type 0} → Bool → Option RustBridge → (RustBridge → Outcome A) → Outcome A → Outcome A
try_on strict none work other = other
try_on strict (some bridge) work other = fall_back strict (work bridge) other

unfoldable pub try_rust :
    {A : Type 0} → CryptoAgent → (RustBridge → Outcome A) → Outcome A → Outcome A
try_rust agent work other = try_on agent.strict agent.rust work other

module _ (agent : CryptoAgent) where
  unfoldable pub agent_generate_group_key : ℕ → Outcome Bytes
  unfolding try_rust
  agent_generate_group_key n =
      try_rust agent rust_generate_group_key (returned (node_generate_group_key agent.node n))

  unfoldable pub agent_encrypt_clipboard : ℕ → Bytes → Bytes → Outcome CipherEnvelope
  unfolding try_rust
  agent_encrypt_clipboard n key plaintext =
      try_rust agent (λ bridge. rust_encrypt_clipboard bridge key plaintext)
        (node_encrypt_clipboard agent.node n key plaintext)

  unfoldable pub agent_decrypt_clipboard : Bytes → CipherEnvelope → Outcome Bytes
  unfolding try_rust
  agent_decrypt_clipboard key envelope =
      try_rust agent (λ bridge. rust_decrypt_clipboard bridge key envelope)
        (node_decrypt_clipboard agent.node key envelope)

  unfoldable pub agent_unseal_group_key : String → String → Outcome Bytes
  unfolding try_rust
  agent_unseal_group_key sealed private =
      try_rust agent (λ bridge. rust_unseal_group_key bridge sealed private)
        (node_unseal_group_key agent.node sealed private)

  unfoldable pub agent_seal_group_key : ℕ → Bytes → String → Outcome (Option Json)
  unfolding try_rust
  agent_seal_group_key n key recipient =
      try_rust agent (λ bridge. rust_seal_group_key bridge key recipient)
        (and_then (node_seal_group_key agent.node n key recipient)
          λ text. returned (some (text_value text)))
