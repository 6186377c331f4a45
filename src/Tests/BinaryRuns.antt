-- ===== src/Tests/BinaryRuns.antt =====
-- The theorem on the agent and the Rust binary at crates that write bytes as strokes.
use Prim.Native.String.{◌∷◌, []}
use Prim.Native.Char.{Char, code}
use sharepaste.Prelude.{
  ℕ, ◌≡◌, refl, ap, String, true, false, List, nat_eq, if◌then◌else◌, ◌==◌, ◌++◌, Option, none,
  some, Bool, Bool-cases, inl, inr, eq_iff,
}
use sharepaste.Client.Task.{Outcome, returned, thrown}
use sharepaste.Client.Ports.{Bytes, CipherEnvelope}
use sharepaste.Client.StateFile.{Json, field, no_fields, text_value, object, field_of}
use sharepaste.Client.Crypto.Agent.{
  BridgeResponse, success, failure, agent_encrypt_clipboard, agent_decrypt_clipboard,
  rust_encrypt_clipboard, try_rust, invoke,
}
use sharepaste.Client.Crypto.Binary.{Crates, panicked, bridge_to, run_binary, runtime_encrypt}
use sharepaste.Client.Crypto.Invocations.{Alike}
use sharepaste.Client.Crypto.Fallbacks.{lenient, agent_decrypt-encrypt}
use sharepaste.Tests.CryptoRuns.{clear_text, no_tag}
use sharepaste.Tests.SealRuns.{
  strokes, draw_bytes, count_from, counted, marked, unmarked, unmarked-marked, by_hand,
  by_hand-SealsCorrectly,
}

abbrev text_or : Option Json → String
text_or (some (text_value s)) = s
text_or _ = ""

abbrev text_at : String → Json → String
text_at key (object fields) = text_or (field_of key fields)
text_at key _ = ""

abbrev print_as : Option Json → Json → String
print_as none json = "e" ∷ marked (text_at "nonce" json) (marked (text_at "ciphertext" json) [])
print_as (some bytes) json = "b" ∷ marked (text_or (some bytes)) []

abbrev print_success : Json → String
print_success (object fields) = print_as (field_of "bytes" fields) (object fields)
print_success _ = "?"

abbrev print_response : BridgeResponse → String
print_response (failure message) = "f" ∷ marked message []
print_response (success json) = print_success json

abbrev parse_marked : String → ℕ → Outcome BridgeResponse
parse_marked s kind =
    let a = unmarked s in
    let b = unmarked a.1 in
    if nat_eq kind 98
    then returned (success (object (field "bytes" (text_value a.0) no_fields)))
    else if nat_eq kind 101
    then returned (
        success
          (object (field "nonce" (text_value a.0) (field "ciphertext" (text_value b.0) no_fields))))
    else returned (failure a.0)

abbrev parse_text : String → Outcome BridgeResponse
parse_text [] = thrown "empty"
parse_text (c ∷ s) = parse_marked s (code c)

abbrev zeros : Bytes
zeros = List.◌∷◌ 0 (
    List.◌∷◌ 0 (
      List.◌∷◌ 0 (
        List.◌∷◌ 0 (
          List.◌∷◌ 0 (
            List.◌∷◌ 0 (
              List.◌∷◌ 0
                (List.◌∷◌ 0 (List.◌∷◌ 0 (List.◌∷◌ 0 (List.◌∷◌ 0 (List.◌∷◌ 0 List.[])))))))))))

abbrev sample_crates : Crates
sample_crates = record {
  encrypt = clear_text.aes_gcm_seal;
  decrypt = clear_text.aes_gcm_open;
  nonce_for = λ key plaintext. zeros;
  encode = draw_bytes;
  decode = λ s. returned (count_from 0 s);
  print = print_response;
  parse = parse_text;
  trim = λ s. s;
  decimal = λ n. "0";
  panic_text = "panicked";
  spawn_error = λ call. none;
  others = λ call. panicked;
}

abbrev starts : String → Bool
starts [] = false
starts (c ∷ s) = true

nonempty : (c : Char) (s : String) → ((c ∷ s) == "") ≡ false
nonempty c s = elim (Bool-cases ((c ∷ s) == "")) [
  | inl e ↦ let same = ap starts ((eq_iff (c ∷ s) "").0 e) in absurd (cc (same))
  | inr e ↦ e
]

sample_crates-Alike : Alike sample_crates by_hand
unfolding field_of
sample_crates-Alike = record {
  seals_alike = λ key nonce plaintext h k. refl;
  opens_alike = λ key nonce body tag h k. refl;
  nonce_size = λ key plaintext. refl;
  reads_node = λ bytes. ap returned (counted bytes);
  node_reads = counted;
  prints_envelope = λ envelope. (
    nonempty _ _,
    nonempty _ _,
    rw
        (
          unmarked-marked (draw_bytes envelope.nonce) (marked (draw_bytes envelope.ciphertext) []),
          unmarked-marked (draw_bytes envelope.ciphertext) [],
        )
        refl,
  );
  prints_bytes =
      λ bytes. (nonempty _ _, nonempty _ _, rw (unmarked-marked (draw_bytes bytes) []) refl);
  prints_failure = λ message. (nonempty _ _, nonempty _ _, rw (unmarked-marked message []) refl);
}

abbrev long_key : Bytes
long_key = no_tag ++ no_tag

abbrev words : Bytes
words = List.◌∷◌ 1 (List.◌∷◌ 2 List.[])

abbrev scrambled : CipherEnvelope
scrambled = record { nonce = zeros; ciphertext = words ++ no_tag }

binary_encrypts :
    agent_encrypt_clipboard (lenient sample_crates by_hand true) 7 long_key words
    ≡ returned scrambled
unfolding agent_encrypt_clipboard rust_encrypt_clipboard try_rust invoke bridge_to run_binary
    runtime_encrypt field_of strokes draw_bytes count_from marked unmarked
binary_encrypts = refl

agent_decrypt-encrypt_example :
    agent_decrypt_clipboard (lenient sample_crates by_hand true) long_key scrambled ≡ returned words
agent_decrypt-encrypt_example =
    agent_decrypt-encrypt sample_crates by_hand (by_hand-SealsCorrectly.gcm) sample_crates-Alike
      true 7 long_key words scrambled binary_encrypts
