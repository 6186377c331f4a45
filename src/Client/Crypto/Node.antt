-- ===== src/Client/Crypto/Node.antt =====
-- `NodeCryptoAgent` (packages/client-core/src/core/crypto-agent.ts) over node:crypto, whose calls
-- are the fields of `NodeCrypto`. A value that differs from call to call takes the number of the
-- call; each method takes the number of its first one.
use sharepaste.Prelude.{
  ℕ, suc, ◌+◌, ◌-◌, String, [], ◌∷◌, ◌++◌, length, take, zero, leb, if◌then◌else◌,
}
use sharepaste.Client.Types.{DeviceIdentity}
use sharepaste.Client.Task.{Outcome, returned, thrown}
use sharepaste.Client.Ports.{Bytes, CipherEnvelope}

-- The text of a sealed key, before it is written as JSON in base64url.
pub record SealedText : Type 0 where
  pub epk : String
  pub nonce : String
  pub ciphertext : String

pub record NodeCrypto : Type 0 where
  -- generateKeyPairSync and export
  pub ed25519_public : ℕ → String
  pub ed25519_private : ℕ → String
  pub x25519_public : ℕ → String
  pub x25519_private : ℕ → String
  -- randomBytes(size)
  pub random_bytes : ℕ → ℕ → Bytes
  -- createCipheriv("aes-256-gcm", key, nonce), update, final, getAuthTag: the body and the tag
  pub aes_gcm_seal : Bytes → Bytes → Bytes → Outcome (Bytes × Bytes)
  -- createDecipheriv, setAuthTag, update, final: key, nonce, body and tag
  pub aes_gcm_open : Bytes → Bytes → Bytes → Bytes → Outcome Bytes
  -- diffieHellman of a private and a public key in PEM
  pub diffie_hellman : String → String → Outcome Bytes
  pub base64url_text : Bytes → String
  pub base64url_bytes : String → Bytes
  -- Buffer.from(JSON.stringify(parts)).toString("base64url"), and back by JSON.parse
  pub write_sealed : SealedText → String
  pub read_sealed : String → Outcome SealedText

abbrev pub tag_length : ℕ
tag_length = 16

-- xs.slice(n) with n at or above 0
abbrev pub drop : ℕ → Bytes → Bytes
drop zero xs = xs
drop (suc n) [] = []
drop (suc n) (x ∷ xs) = drop n xs

-- Where slice cuts for `length - 16`; a number below 0 counts from the end.
abbrev pub body_length : ℕ → ℕ
body_length n = if leb tag_length n then n - tag_length else (n + n) - tag_length

abbrev pub and_then : {A B : Type 0} → Outcome A → (A → Outcome B) → Outcome B
and_then (returned a) f = f a
and_then (thrown message) f = thrown message

module _ (node : NodeCrypto) where
  unfoldable pub node_create_identity : ℕ → DeviceIdentity
  node_create_identity n = record {
    sign_public_key = node.ed25519_public n;
    sign_private_key = node.ed25519_private n;
    wrap_public_key = node.x25519_public (suc n);
    wrap_private_key = node.x25519_private (suc n);
  }

  unfoldable pub node_generate_group_key : ℕ → Bytes
  node_generate_group_key n = node.random_bytes 32 n

  unfoldable pub node_encrypt_clipboard : ℕ → Bytes → Bytes → Outcome CipherEnvelope
  node_encrypt_clipboard n key plaintext =
      let nonce = node.random_bytes 12 n in
      and_then (node.aes_gcm_seal key nonce plaintext)
        λ sealed. returned (record { nonce = nonce; ciphertext = sealed.0 ++ sealed.1 })

  unfoldable pub node_decrypt_clipboard : Bytes → CipherEnvelope → Outcome Bytes
  node_decrypt_clipboard key envelope =
      let cut = body_length (length envelope.ciphertext) in
      node.aes_gcm_open key envelope.nonce (take cut envelope.ciphertext)
        (drop cut envelope.ciphertext)

  unfoldable pub node_seal_group_key : ℕ → Bytes → String → Outcome String
  node_seal_group_key n key recipient =
      let nonce = node.random_bytes 12 (suc n) in
      and_then (node.diffie_hellman (node.x25519_private n) recipient) λ secret.
        and_then (node.aes_gcm_seal (take 32 secret) nonce key) λ sealed. returned (
          node.write_sealed (record {
            epk = node.x25519_public n;
            nonce = node.base64url_text nonce;
            ciphertext = node.base64url_text (sealed.0 ++ sealed.1);
          }))

  unfoldable pub node_unseal_group_key : String → String → Outcome Bytes
  node_unseal_group_key sealed private = and_then (node.read_sealed sealed) λ parsed.
      and_then (node.diffie_hellman private parsed.epk) λ secret.
        let ciphertext = node.base64url_bytes parsed.ciphertext in
        let cut = body_length (length ciphertext) in
        node.aes_gcm_open (take 32 secret) (node.base64url_bytes parsed.nonce) (take cut ciphertext)
          (drop cut ciphertext)
