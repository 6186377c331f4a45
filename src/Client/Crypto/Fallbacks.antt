-- ===== src/Client/Crypto/Fallbacks.antt =====
-- The crypto agent with the Rust binary and without it (packages/client-core/src/core/
-- crypto-agent.ts).
use sharepaste.Prelude.{
  ℕ, ◌≡◌, refl, ap, Bool, true, false, none, some, ◌⊎◌, inl, inr, if◌then◌else◌,
}
use sharepaste.Client.Task.{Outcome, returned, thrown}
use sharepaste.Client.Ports.{Bytes, CipherEnvelope}
use sharepaste.Client.Crypto.Node.{NodeCrypto, node_encrypt_clipboard, node_decrypt_clipboard}
use sharepaste.Client.Crypto.Agent.{
  CryptoAgent, rust_encrypt_clipboard, rust_decrypt_clipboard, agent_encrypt_clipboard,
  agent_decrypt_clipboard, try_rust, fall_back,
}
use sharepaste.Client.Crypto.Binary.{Crates, bridge_to}
use sharepaste.Client.Crypto.Invocations.{Alike}
use sharepaste.Client.Crypto.Interop.{runtime_opens, rust_encrypt-runtime, rust_decrypt-Honest}
use sharepaste.Client.Crypto.RoundTrips.{IsCorrect, node_decrypt-encrypt}

fall_back-returned :
    {A : Type 0} (a : A) (first other : Outcome A)
    → other ≡ returned a
    → ((b : A) → first ≡ returned b → b ≡ a)
    → fall_back false first other ≡ returned a
fall_back-returned a (returned b) other e h = ap returned (h b refl)
fall_back-returned a (thrown m) other e h = e

fall_back-from :
    {A : Type 0} (a : A) (first other : Outcome A)
    → fall_back false first other ≡ returned a
    → (first ≡ returned a) ⊎ (other ≡ returned a)
fall_back-from a (returned b) other h = inl h
fall_back-from a (thrown m) other h = inr h

-- An agent that is not strict, with the binary if it is installed.
abbrev pub lenient : Crates → NodeCrypto → Bool → CryptoAgent
lenient crates node installed = record {
  node = node;
  rust = if installed then some (bridge_to crates node) else none;
  strict = false;
}

module _ (crates : Crates) (node : NodeCrypto) (laws : IsCorrect node)
    (alike : Alike crates node) where
  opened_by_node :
      (n : ℕ) (key plaintext : Bytes) (envelope : CipherEnvelope)
      → fall_back false
          (rust_encrypt_clipboard (bridge_to crates node) key plaintext)
          (node_encrypt_clipboard node n key plaintext)
        ≡ returned envelope
      → node_decrypt_clipboard node key envelope ≡ returned plaintext
  opened_by_node n key plaintext envelope h =
      elim (fall_back-from envelope (rust_encrypt_clipboard (bridge_to crates node) key plaintext)
        (node_encrypt_clipboard node n key plaintext) h) [
          | inl e ↦
              runtime_opens crates node alike laws key _ plaintext envelope (alike.nonce_size _ _)
                (rust_encrypt-runtime crates node alike key plaintext envelope e)
          | inr e ↦ node_decrypt-encrypt node laws n key plaintext envelope e
        ]

  -- An agent that is not strict decrypts what it encrypted, under the same key: without the Rust
  -- binary, and with it, whichever of the two runs of it fail and whether it or Node encrypts.
  -- Premises: AES-256-GCM opens what it sealed, the crate of the binary computes it as node:crypto
  -- does, and base64url and JSON are read as they were written.
  pub agent_decrypt-encrypt :
      (installed : Bool) (n : ℕ) (key plaintext : Bytes) (envelope : CipherEnvelope)
      → agent_encrypt_clipboard (lenient crates node installed) n key plaintext ≡ returned envelope
      → agent_decrypt_clipboard (lenient crates node installed) key envelope ≡ returned plaintext
  unfolding agent_encrypt_clipboard agent_decrypt_clipboard try_rust
  agent_decrypt-encrypt false n key plaintext envelope h =
      node_decrypt-encrypt node laws n key plaintext envelope h
  agent_decrypt-encrypt true n key plaintext envelope h =
      let by_node = opened_by_node n key plaintext envelope h in
      fall_back-returned plaintext (rust_decrypt_clipboard (bridge_to crates node) key envelope) _
        by_node
        λ bytes e. rust_decrypt-Honest crates node alike key plaintext bytes envelope by_node e
