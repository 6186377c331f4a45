-- ===== src/Tests/CryptoRuns.antt =====
-- The theorems on the crypto agents at an agent whose cipher is the identity with an empty tag.
use sharepaste.Prelude.{◌≡◌, refl, ap, [], ◌∷◌, length, sym, ◌++◌}
use sharepaste.Client.Task.{Outcome, returned, thrown}
use sharepaste.Client.Ports.{Bytes, CipherEnvelope}
use sharepaste.Client.Crypto.Node.{NodeCrypto, node_encrypt_clipboard, node_decrypt_clipboard}
use sharepaste.Client.Crypto.RoundTrips.{IsCorrect, node_decrypt-encrypt}

abbrev pub no_tag : Bytes
no_tag = 0 ∷ 0 ∷ 0 ∷ 0 ∷ 0 ∷ 0 ∷ 0 ∷ 0 ∷ 0 ∷ 0 ∷ 0 ∷ 0 ∷ 0 ∷ 0 ∷ 0 ∷ 0 ∷ []

abbrev pub clear_text : NodeCrypto
clear_text = record {
  ed25519_public = λ n. "p";
  ed25519_private = λ n. "q";
  x25519_public = λ n. "p";
  x25519_private = λ n. "q";
  random_bytes = λ size n. n ∷ [];
  aes_gcm_seal = λ key nonce plaintext. returned (plaintext, no_tag);
  aes_gcm_open = λ key nonce body tag. returned body;
  diffie_hellman = λ private public. returned [];
  base64url_text = λ bytes. "";
  base64url_bytes = λ s. [];
  write_sealed = λ parts. parts.epk;
  read_sealed = λ s. returned (record { epk = s; nonce = ""; ciphertext = "" });
}

abbrev sealed_or : Outcome (Bytes × Bytes) → Bytes × Bytes
sealed_or (returned s) = s
sealed_or (thrown message) = ([], [])

pub clear_text-IsCorrect : IsCorrect clear_text
clear_text-IsCorrect = record {
  opens = λ key nonce plaintext body tag e. sym (ap (λ s. returned (sealed_or s).0) e);
  tag_size = λ key nonce plaintext body tag e. sym (ap (λ s. length (sealed_or s).1) e);
}

abbrev greeting : CipherEnvelope
greeting = record { nonce = 7 ∷ []; ciphertext = (1 ∷ 2 ∷ []) ++ no_tag }

encrypts_greeting : node_encrypt_clipboard clear_text 7 [] (1 ∷ 2 ∷ []) ≡ returned greeting
unfolding node_encrypt_clipboard
encrypts_greeting = refl

node_decrypt-encrypt_example : node_decrypt_clipboard clear_text [] greeting ≡ returned (1 ∷ 2 ∷ [])
node_decrypt-encrypt_example =
    node_decrypt-encrypt clear_text clear_text-IsCorrect 7 [] (1 ∷ 2 ∷ []) greeting
      encrypts_greeting
