-- ===== src/Client/Crypto/Invocations.antt =====
-- What `invoke` returns of a run of the Rust binary (packages/client-core/src/core/crypto-agent.ts,
-- crates/client-runtime/src/bin/bridge.rs).
use sharepaste.Prelude.{
  ◌≡◌, refl, sym, subst, String, Bool, true, false, Option, none, some, length, ◌==◌, nat_eq,
  if◌then◌else◌,
}
use sharepaste.Client.Task.{Outcome, returned, thrown}
use sharepaste.Client.Ports.{Bytes, CipherEnvelope}
use sharepaste.Client.StateFile.{Json}
use sharepaste.Client.Crypto.Node.{NodeCrypto}
use sharepaste.Client.Crypto.Agent.{
  BridgeCall, BridgeResponse, success, failure, encrypt_clipboard, decrypt_clipboard, invoke,
  run_spawned, or_text, RustBridge,
}
use sharepaste.Client.Crypto.Binary.{
  Crates, Ending, answered, failed, panicked, ended, envelope_json, bytes_json, runtime_encrypt,
  runtime_decrypt, decrypt_ending, run_binary, spawned, bridge_to, key_length, nonce_length,
  wrong_length,
}

-- A response that is printed is not empty, and is parsed as it was.
abbrev pub Printable : Crates → BridgeResponse → Type 0
Printable crates r =
    ((crates.print r == "") ≡ false)
    × ((crates.trim (crates.print r) == "") ≡ false)
    × (crates.parse (crates.trim (crates.print r)) ≡ returned r)

-- What both sides rely on: the crate's AES-256-GCM is that of node:crypto, base64url is read as it
-- was written, and a response that is printed is parsed.
pub record Alike (crates : Crates) (node : NodeCrypto) : Type 0 where
  pub seals_alike :
      (key nonce plaintext : Bytes)
      → length key ≡ key_length
      → length nonce ≡ nonce_length
      → crates.encrypt key nonce plaintext ≡ node.aes_gcm_seal key nonce plaintext
  pub opens_alike :
      (key nonce body tag : Bytes)
      → length key ≡ key_length
      → length nonce ≡ nonce_length
      → crates.decrypt key nonce body tag ≡ node.aes_gcm_open key nonce body tag
  pub nonce_size : (key plaintext : String) → length (crates.nonce_for key plaintext) ≡ nonce_length
  pub reads_node : (bytes : Bytes) → crates.decode (node.base64url_text bytes) ≡ returned bytes
  pub node_reads : (bytes : Bytes) → node.base64url_bytes (crates.encode bytes) ≡ bytes
  pub prints_envelope :
      (envelope : CipherEnvelope) → Printable crates (success (envelope_json crates envelope))
  pub prints_bytes : (bytes : Bytes) → Printable crates (success (bytes_json crates bytes))
  pub prints_failure : (message : String) → Printable crates (failure message)

module _ (crates : Crates) (node : NodeCrypto) (laws : Alike crates node) where
  abbrev pub bridge : RustBridge
  bridge = bridge_to crates node

  -- What `invoke` makes of the end of a run.
  abbrev pub settled : Option String → Ending → Outcome Json
  settled (some message) ending = thrown message
  settled none (answered json) = returned json
  settled none (failed message) = thrown message
  settled none panicked =
      thrown (or_text (crates.trim crates.panic_text) "bridge exited with code 101")

  abbrev pub Readable : Ending → Type 0
  Readable (answered json) = Printable crates (success json)
  Readable (failed message) = Unit {0}
  Readable panicked = Unit {0}

  invoked_as :
      (e : Option String) (ending : Ending)
      → Readable ending
      → run_spawned bridge (spawned crates e ending) (spawned crates e ending).error
        ≡ settled e ending
  unfolding bridge_to
  invoked_as (some message) ending h = refl
  invoked_as none (answered json) h = let (full, trimmed, parsed) = h in rw (trimmed, parsed)
  invoked_as none (failed message) h =
      let (full, trimmed, parsed) = laws.prints_failure message in rw (full, trimmed, parsed)
  invoked_as none panicked h = refl

  pub invoked :
      (call : BridgeCall) (ending : Ending)
      → run_binary crates call ≡ ending
      → Readable ending
      → invoke bridge call ≡ settled (crates.spawn_error call) ending
  unfolding invoke bridge_to
  invoked call ending e h =
      subst
        (λ r.
          run_spawned bridge (spawned crates (crates.spawn_error call) r)
            (spawned crates (crates.spawn_error call) r).error
          ≡ settled (crates.spawn_error call) ending)
        (sym e) (invoked_as (crates.spawn_error call) ending h)

  pub envelope-Readable : (o : Outcome CipherEnvelope) → Readable (ended (envelope_json crates) o)
  envelope-Readable (returned envelope) = laws.prints_envelope envelope
  envelope-Readable (thrown message) = tt

  bytes-Readable : (o : Outcome Bytes) → Readable (ended (bytes_json crates) o)
  bytes-Readable (returned bytes) = laws.prints_bytes bytes
  bytes-Readable (thrown message) = tt

  Readable-if :
      (key : Bytes) (long sized : Bool) (o : Outcome Bytes)
      → Readable (
          if long
          then (if sized then ended (bytes_json crates) o else panicked)
          else ended (bytes_json crates) (wrong_length crates key))
  Readable-if key true true o = bytes-Readable o
  Readable-if key true false o = tt
  Readable-if key false sized o = tt

  pub decrypt-Readable :
      (key : Bytes) (envelope : CipherEnvelope) → Readable (decrypt_ending crates key envelope)
  unfolding decrypt_ending runtime_decrypt
  decrypt-Readable key envelope =
      Readable-if key (nat_eq (length key) key_length) (nat_eq (length envelope.nonce) nonce_length)
        (runtime_decrypt crates key envelope)

  pub ran_encrypt :
      (key plaintext : Bytes)
      → run_binary crates
          (encrypt_clipboard (node.base64url_text key) (node.base64url_text plaintext))
        ≡ ended (envelope_json crates) (
            runtime_encrypt crates
              (crates.nonce_for (node.base64url_text key) (node.base64url_text plaintext))
              key
              plaintext)
  unfolding run_binary
  ran_encrypt key plaintext = rw (laws.reads_node key, laws.reads_node plaintext)

  pub ran_decrypt :
      (key : Bytes) (envelope : CipherEnvelope)
      → run_binary crates (
          decrypt_clipboard
            (node.base64url_text key)
            (node.base64url_text envelope.nonce)
            (node.base64url_text envelope.ciphertext))
        ≡ decrypt_ending crates key envelope
  unfolding run_binary
  ran_decrypt key envelope =
      rw (laws.reads_node key, laws.reads_node envelope.nonce, laws.reads_node envelope.ciphertext)
