-- ===== src/Env.antt =====
-- apps/server/src/utils/ids.ts over what it calls: the clock, `nanoid` and `node:crypto` are the
-- fields of `Env`. A value that differs from call to call takes the number of the call.
use Prim.Native.String.{◌++◌}
use sharepaste.Prelude.{ℕ, String, ◌/◌, Option, none, some}

-- The parts that a sealed key consists of, before they are written as JSON in base64url.
pub record SealedParts : Type 0 where
  pub group_id : String
  pub version : ℕ
  pub epk : String
  pub nonce : String
  pub ciphertext : String

pub record Env : Type 0 where
  -- Date.now()
  pub date_now : ℕ → ℕ
  -- nanoid(size), customAlphabet(alphabet, size)()
  pub nanoid : ℕ → ℕ → String
  pub custom_alphabet : String → ℕ → ℕ → String
  -- createHash("sha256").update(s).digest("hex")
  pub sha256_hex : String → String
  -- randomBytes(size), as hex and as base64url
  pub random_hex : ℕ → ℕ → String
  pub random_base64url : ℕ → ℕ → String
  -- generateKeyPairSync("x25519"): the private key and the public key
  pub ephemeral_private : ℕ → String
  pub ephemeral_public : ℕ → String
  -- createPublicKey(pem) throws on a text that is no key
  pub create_public_key : String → Option String
  pub diffie_hellman : String → String → String
  -- AES-256-GCM of a base64url text under a key and a nonce, with its tag, as base64url
  pub aes_gcm : String → String → String → String
  -- Buffer.from(JSON.stringify(parts)).toString("base64url")
  pub to_base64url : SealedParts → String

module _ (env : Env) where
  unfoldable pub now_unix : ℕ → ℕ
  now_unix n = env.date_now n / 1000

  unfoldable pub make_device_id : ℕ → String
  make_device_id n = "dev_" ++ (env.nanoid 16 n)

  unfoldable pub make_group_id : ℕ → String
  make_group_id n = "grp_" ++ (env.nanoid 16 n)

  unfoldable pub make_request_id : ℕ → String
  make_request_id n = "req_" ++ (env.nanoid 14 n)

  unfoldable pub generate_bind_code : ℕ → String
  generate_bind_code n = env.custom_alphabet "0123456789" 6 n

  unfoldable pub hash_recovery_phrase : String → String
  hash_recovery_phrase phrase = env.sha256_hex phrase

  unfoldable pub generate_recovery_phrase : ℕ → String
  generate_recovery_phrase n = env.random_hex 16 n

  unfoldable pub generate_group_key_base64 : ℕ → String
  generate_group_key_base64 n = env.random_base64url 32 n

  -- `none`: the public key of the device is no key, and the call throws.
  unfoldable pub seal_group_key_for_device : ℕ → String → String → ℕ → String → Option String
  seal_group_key_for_device n group_id pubkey version group_key =
      elim (env.create_public_key pubkey) [
        | none ↦ none
        | some key ↦
            let shared_secret = env.diffie_hellman (env.ephemeral_private n) key in
            let nonce = env.random_base64url 12 n in
            some (
              env.to_base64url (record {
                group_id = group_id;
                version = version;
                epk = env.ephemeral_public n;
                nonce = nonce;
                ciphertext = env.aes_gcm shared_secret nonce group_key;
              }))
      ]
