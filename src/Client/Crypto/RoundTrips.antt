-- ===== src/Client/Crypto/RoundTrips.antt =====
-- What the crypto agents make of each other's output (packages/client-core/src/core/
-- crypto-agent.ts).
use sharepaste.Prelude.{
  ℕ, suc, ◌≡◌, refl, ap, subst, String, [], ◌∷◌, ◌++◌, arith, length, take, length-append,
}
use sharepaste.Client.Task.{Outcome, returned, thrown}
use sharepaste.Client.Ports.{Bytes, CipherEnvelope}
use sharepaste.Client.Crypto.Node.{
  NodeCrypto, SealedText, and_then, drop, body_length, tag_length, node_encrypt_clipboard,
  node_decrypt_clipboard, node_seal_group_key, node_unseal_group_key,
}

-- What the agents rely on: AES-256-GCM opens what it sealed, and its tag has 16 bytes.
pub record IsCorrect (node : NodeCrypto) : Type 0 where
  pub opens :
      (key nonce plaintext body tag : Bytes)
      → node.aes_gcm_seal key nonce plaintext ≡ returned (body, tag)
      → node.aes_gcm_open key nonce body tag ≡ returned plaintext
  pub tag_size :
      (key nonce plaintext body tag : Bytes)
      → node.aes_gcm_seal key nonce plaintext ≡ returned (body, tag)
      → length tag ≡ tag_length

-- Besides, the two ends of X25519 agree, and base64url and JSON are read as they were written.
pub record SealsCorrectly (node : NodeCrypto) : Type 0 where
  pub gcm : IsCorrect node
  pub agree :
      (i j : ℕ)
      → node.diffie_hellman (node.x25519_private i) (node.x25519_public j)
        ≡ node.diffie_hellman (node.x25519_private j) (node.x25519_public i)
  pub decodes : (bytes : Bytes) → node.base64url_bytes (node.base64url_text bytes) ≡ bytes
  pub reads : (parts : SealedText) → node.read_sealed (node.write_sealed parts) ≡ returned parts

take-append : (xs ys : Bytes) → take (length xs) (xs ++ ys) ≡ xs
take-append [] ys = refl
take-append (x ∷ xs) ys = ap (λ r. x ∷ r) (take-append xs ys)

drop-append : (xs ys : Bytes) → drop (length xs) (xs ++ ys) ≡ ys
drop-append [] ys = refl
drop-append (x ∷ xs) ys = drop-append xs ys

body_length-append :
    (body tag : Bytes) → length tag ≡ tag_length → body_length (length (body ++ tag)) ≡ length body
body_length-append body tag h = ground (arith, length-append body tag)

abbrev value_or : {A : Type 0} → A → Outcome A → A
value_or a (returned b) = b
value_or a (thrown message) = a

pub returned_injective : {A : Type 0} (a b : A) → returned a ≡ returned b → a ≡ b
returned_injective a b h = ap (value_or a) h

module _ (node : NodeCrypto) (laws : IsCorrect node) where
  -- Sealed bytes are cut where they were joined.
  pub opened :
      (key nonce plaintext body tag : Bytes)
      → node.aes_gcm_seal key nonce plaintext ≡ returned (body, tag)
      → let all = body ++ tag in
        let cut = body_length (length all) in
        node.aes_gcm_open key nonce (take cut all) (drop cut all) ≡ returned plaintext
  opened key nonce plaintext body tag e =
      rw
        (
          body_length-append body tag (laws.tag_size key nonce plaintext body tag e),
          take-append body tag,
          drop-append body tag,
        )
        (laws.opens key nonce plaintext body tag e)

  decrypt_of :
      (n : ℕ) (key plaintext : Bytes) (sealed : Outcome (Bytes × Bytes)) (envelope : CipherEnvelope)
      → node.aes_gcm_seal key (node.random_bytes 12 n) plaintext ≡ sealed
      → and_then sealed
          (λ s. returned (record { nonce = node.random_bytes 12 n; ciphertext = s.0 ++ s.1 }))
        ≡ returned envelope
      → node_decrypt_clipboard node key envelope ≡ returned plaintext
  unfolding node_decrypt_clipboard
  decrypt_of n key plaintext (thrown m) envelope e h = cc
  decrypt_of n key plaintext (returned (body, tag)) envelope e h =
      subst (λ v. node_decrypt_clipboard node key v ≡ returned plaintext) (returned_injective _ _ h)
        (opened key (node.random_bytes 12 n) plaintext body tag e)

  -- What the Node agent encrypts it decrypts, under the same key.
  pub node_decrypt-encrypt :
      (n : ℕ) (key plaintext : Bytes) (envelope : CipherEnvelope)
      → node_encrypt_clipboard node n key plaintext ≡ returned envelope
      → node_decrypt_clipboard node key envelope ≡ returned plaintext
  unfolding node_encrypt_clipboard
  node_decrypt-encrypt n key plaintext envelope h = decrypt_of n key plaintext _ envelope refl h

module _ (node : NodeCrypto) (laws : SealsCorrectly node) where
  abbrev written : ℕ → Bytes → SealedText
  written n bytes = record {
    epk = node.x25519_public n;
    nonce = node.base64url_text (node.random_bytes 12 (suc n));
    ciphertext = node.base64url_text bytes;
  }

  unseal_written :
      (n j : ℕ) (key secret body tag : Bytes)
      → node.diffie_hellman (node.x25519_private n) (node.x25519_public j) ≡ returned secret
      → node.aes_gcm_seal (take 32 secret) (node.random_bytes 12 (suc n)) key ≡ returned (body, tag)
      → node_unseal_group_key node
          (node.write_sealed (written n (body ++ tag)))
          (node.x25519_private j)
        ≡ returned key
  unfolding node_unseal_group_key
  unseal_written n j key secret body tag e e' =
      rw
        (
          laws.reads (written n (body ++ tag)),
          laws.agree j n,
          e,
          laws.decodes (node.random_bytes 12 (suc n)),
          laws.decodes (body ++ tag),
        )
        (opened node laws.gcm (take 32 secret) (node.random_bytes 12 (suc n)) key body tag e')

  unseal_of :
      (n j : ℕ) (key : Bytes) (secret : Outcome Bytes) (text : String)
      → node.diffie_hellman (node.x25519_private n) (node.x25519_public j) ≡ secret
      → and_then secret (λ s.
        and_then
          (node.aes_gcm_seal (take 32 s) (node.random_bytes 12 (suc n)) key)
          λ sealed. returned (node.write_sealed (written n (sealed.0 ++ sealed.1))))
        ≡ returned text
      → node_unseal_group_key node text (node.x25519_private j) ≡ returned key
  unseal_of n j key (thrown m) text e h = cc
  unseal_of n j key (returned s) text e h = unsealed _ refl h
    where
      unsealed :
          (o : Outcome (Bytes × Bytes))
          → node.aes_gcm_seal (take 32 s) (node.random_bytes 12 (suc n)) key ≡ o
          → and_then o (λ sealed. returned (node.write_sealed (written n (sealed.0 ++ sealed.1))))
            ≡ returned text
          → node_unseal_group_key node text (node.x25519_private j) ≡ returned key
      unsealed (thrown m) e' h' = cc
      unsealed (returned (body, tag)) e' h' =
          subst (λ t. node_unseal_group_key node t (node.x25519_private j) ≡ returned key)
            (returned_injective _ _ h') (unseal_written n j key s body tag e e')

  -- A group key that the Node agent seals for a device's public key is unsealed by the device's
  -- private key.
  pub node_unseal-seal :
      (n j : ℕ) (key : Bytes) (text : String)
      → node_seal_group_key node n key (node.x25519_public j) ≡ returned text
      → node_unseal_group_key node text (node.x25519_private j) ≡ returned key
  unfolding node_seal_group_key
  node_unseal-seal n j key text h = unseal_of n j key _ text refl h
