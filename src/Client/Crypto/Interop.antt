-- ===== src/Client/Crypto/Interop.antt =====
-- The Node agent and the Rust binary on each other's clipboard items (packages/client-core/src/core/
-- crypto-agent.ts, crates/client-runtime/src/crypto.rs).
use sharepaste.Prelude.{
  ℕ, ◌≡◌, refl, sym, ap, subst, ◌∙◌, String, Bool, true, false, Option, none, some, length, ◌++◌,
  arith, nat_eq, if◌then◌else◌,
}
use sharepaste.Client.Task.{Outcome, returned, thrown}
use sharepaste.Client.Ports.{Bytes, CipherEnvelope}
use sharepaste.Client.StateFile.{Json, field_of}
use sharepaste.Client.Crypto.Node.{NodeCrypto, and_then, node_decrypt_clipboard}
use sharepaste.Client.Crypto.Agent.{
  encrypt_clipboard, decrypt_clipboard, bytes_field, rust_encrypt_clipboard, rust_decrypt_clipboard,
}
use sharepaste.Client.Crypto.Binary.{
  Crates, Ending, answered, failed, panicked, ended, envelope_json, bytes_json, runtime_encrypt,
  runtime_decrypt, decrypt_ending, bridge_to, key_length, nonce_length, or_aead, wrong_length,
  aead_failed,
}
use sharepaste.Client.Crypto.RoundTrips.{IsCorrect, opened, returned_injective}
use sharepaste.Client.Crypto.Invocations.{
  Alike, settled, invoked, ran_encrypt, ran_decrypt, envelope-Readable, decrypt-Readable,
}

eq_of : (m n : ℕ) → nat_eq m n ≡ true → m ≡ n
eq_of m n h = ground arith

module _ (crates : Crates) (node : NodeCrypto) (laws : Alike crates node) where
  abbrev envelope_from : Json → Outcome CipherEnvelope
  envelope_from result = and_then (bytes_field (bridge_to crates node) "nonce" result) λ nonce.
      and_then (bytes_field (bridge_to crates node) "ciphertext" result)
        λ ciphertext. returned (record { nonce = nonce; ciphertext = ciphertext })

  envelope_read :
      (envelope : CipherEnvelope)
      → envelope_from (envelope_json crates envelope) ≡ returned envelope
  unfolding field_of bridge_to
  envelope_read envelope = rw (laws.node_reads envelope.nonce, laws.node_reads envelope.ciphertext)

  came_back :
      (e : Option String) (o : Outcome CipherEnvelope) (envelope : CipherEnvelope)
      → and_then (settled crates node laws e (ended (envelope_json crates) o)) envelope_from
        ≡ returned envelope
      → o ≡ returned envelope
  came_back (some message) o envelope h = absurd (cc h)
  came_back none (thrown message) envelope h = absurd (cc h)
  came_back none (returned found) envelope h = sym (envelope_read found) ∙ h

  pub rust_encrypt-runtime :
      (key plaintext : Bytes) (envelope : CipherEnvelope)
      → rust_encrypt_clipboard (bridge_to crates node) key plaintext ≡ returned envelope
      → runtime_encrypt crates
          (crates.nonce_for (node.base64url_text key) (node.base64url_text plaintext))
          key
          plaintext
        ≡ returned envelope
  unfolding rust_encrypt_clipboard bridge_to
  rust_encrypt-runtime key plaintext envelope h =
      let call = encrypt_clipboard (node.base64url_text key) (node.base64url_text plaintext) in
      let ran =
        invoked crates node laws call _ (ran_encrypt crates node laws key plaintext)
          (envelope-Readable crates node laws _) in
      came_back (crates.spawn_error call) _ envelope
        (sym (ap (λ o. and_then o envelope_from) ran) ∙ h)

  module _ (correct : IsCorrect node) where
    sealed_opens :
        (key nonce plaintext : Bytes) (o : Outcome (Bytes × Bytes)) (envelope : CipherEnvelope)
        → node.aes_gcm_seal key nonce plaintext ≡ o
        → or_aead (and_then o λ s. returned (record { nonce = nonce; ciphertext = s.0 ++ s.1 }))
          ≡ returned envelope
        → node_decrypt_clipboard node key envelope ≡ returned plaintext
    unfolding node_decrypt_clipboard
    sealed_opens key nonce plaintext (thrown m) envelope e h = absurd (cc h)
    sealed_opens key nonce plaintext (returned (body, tag)) envelope e h =
        subst (λ v. node_decrypt_clipboard node key v ≡ returned plaintext)
          (returned_injective _ _ h) (opened node correct key nonce plaintext body tag e)

    encrypted_if :
        (key nonce plaintext : Bytes) (long : Bool) (envelope : CipherEnvelope)
        → (long ≡ true → length key ≡ key_length)
        → length nonce ≡ nonce_length
        → (if long
            then or_aead (
                and_then
                  (crates.encrypt key nonce plaintext)
                  λ s. returned (record { nonce = nonce; ciphertext = s.0 ++ s.1 }))
            else wrong_length crates key)
          ≡ returned envelope
        → node_decrypt_clipboard node key envelope ≡ returned plaintext
    encrypted_if key nonce plaintext true envelope long size h =
        sealed_opens key nonce plaintext _ envelope
          (sym (laws.seals_alike key nonce plaintext (long refl) size)) h
    encrypted_if key nonce plaintext false envelope long size h = absurd (cc h)

    pub runtime_opens :
        (key nonce plaintext : Bytes) (envelope : CipherEnvelope)
        → length nonce ≡ nonce_length
        → runtime_encrypt crates nonce key plaintext ≡ returned envelope
        → node_decrypt_clipboard node key envelope ≡ returned plaintext
    unfolding runtime_encrypt
    runtime_opens key nonce plaintext envelope size h =
        encrypted_if key nonce plaintext (nat_eq (length key) key_length) envelope
          (eq_of (length key) key_length) size h

  abbrev Honest : Bytes → Ending → Type 0
  Honest plaintext (answered json) = json ≡ bytes_json crates plaintext
  Honest plaintext (failed message) = Unit {0}
  Honest plaintext panicked = Unit {0}

  bytes_read :
      (bytes : Bytes)
      → bytes_field (bridge_to crates node) "bytes" (bytes_json crates bytes) ≡ returned bytes
  unfolding field_of bridge_to
  bytes_read bytes = rw (laws.node_reads bytes)

  Honest-bytes :
      (e : Option String) (ending : Ending) (plaintext bytes : Bytes)
      → Honest plaintext ending
      → and_then (settled crates node laws e ending) (bytes_field (bridge_to crates node) "bytes")
        ≡ returned bytes
      → bytes ≡ plaintext
  Honest-bytes (some message) ending plaintext bytes h r = absurd (cc r)
  Honest-bytes none (answered json) plaintext bytes h r =
      returned_injective _ _
        (sym r ∙ ap (bytes_field (bridge_to crates node) "bytes") h ∙ bytes_read plaintext)
  Honest-bytes none (failed message) plaintext bytes h r = absurd (cc r)
  Honest-bytes none panicked plaintext bytes h r = absurd (cc r)

  Honest-if :
      (key plaintext : Bytes) (long sized whole : Bool) (o : Outcome Bytes)
      → (long ≡ true → sized ≡ true → o ≡ returned plaintext)
      → Honest plaintext (
          if long
          then (if sized
              then ended (bytes_json crates) (if whole then or_aead o else thrown aead_failed)
              else panicked)
          else ended (bytes_json crates) (wrong_length crates key))
  Honest-if key plaintext true true true o k =
      subst (λ o. Honest plaintext (ended (bytes_json crates) (or_aead o))) (sym (k refl refl)) refl
  Honest-if key plaintext true true false o k = tt
  Honest-if key plaintext true false whole o k = tt
  Honest-if key plaintext false sized whole o k = tt

  decrypt-Honest :
      (key plaintext : Bytes) (envelope : CipherEnvelope)
      → node_decrypt_clipboard node key envelope ≡ returned plaintext
      → Honest plaintext (decrypt_ending crates key envelope)
  unfolding decrypt_ending runtime_decrypt node_decrypt_clipboard
  decrypt-Honest key plaintext envelope h =
      Honest-if key plaintext (nat_eq (length key) key_length)
        (nat_eq (length envelope.nonce) nonce_length) _ _
        λ long sized. laws.opens_alike key envelope.nonce _ _ (eq_of _ _ long) (eq_of _ _ sized) ∙ h

  pub rust_decrypt-Honest :
      (key plaintext bytes : Bytes) (envelope : CipherEnvelope)
      → node_decrypt_clipboard node key envelope ≡ returned plaintext
      → rust_decrypt_clipboard (bridge_to crates node) key envelope ≡ returned bytes
      → bytes ≡ plaintext
  unfolding rust_decrypt_clipboard bridge_to
  rust_decrypt-Honest key plaintext bytes envelope h r =
      let call =
        decrypt_clipboard (node.base64url_text key) (node.base64url_text envelope.nonce)
          (node.base64url_text envelope.ciphertext) in
      let ran =
        invoked crates node laws call _ (ran_decrypt crates node laws key envelope)
          (decrypt-Readable crates node laws key envelope) in
      Honest-bytes (crates.spawn_error call) (decrypt_ending crates key envelope) plaintext bytes
        (decrypt-Honest key plaintext envelope h)
        (sym (ap (λ o. and_then o (bytes_field (bridge_to crates node) "bytes")) ran) ∙ r)
