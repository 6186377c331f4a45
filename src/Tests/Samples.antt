-- ===== src/Tests/Samples.antt =====
-- An environment, and stores to try the operations on.
use Prim.Native.String.{◌∷◌, []}
use sharepaste.Prelude.{ℕ, zero, suc, ◌≡◌, refl, ap, String, none, some, ◌==◌, if◌then◌else◌}
use sharepaste.Types.{RegisterDeviceInput}
use sharepaste.Env.{Env}
use sharepaste.Store.Keeps.Joins.{FreshIds}

-- n strokes
unfoldable pub tally : ℕ → String
tally zero = []
tally (suc n) = "x" ∷ tally n

tally_injective : (m n : ℕ) → tally m ≡ tally n → m ≡ n
unfolding tally
tally_injective zero zero e = refl
tally_injective zero (suc n) e = cc
tally_injective (suc m) zero e = cc
tally_injective (suc m) (suc n) e = ap suc (tally_injective m n (cc))

-- The clock stands still, texts are tallies, and a key is a text that is not empty.
abbrev pub sample_env : Env
sample_env = record {
  date_now = λ n. 1000000;
  nanoid = λ size n. tally n;
  custom_alphabet = λ alphabet size n. tally n;
  sha256_hex = λ s. s;
  random_hex = λ size n. tally n;
  random_base64url = λ size n. tally n;
  ephemeral_private = tally;
  ephemeral_public = tally;
  create_public_key = λ s. if s == "" then none else some s;
  diffie_hellman = λ a b. a;
  aes_gcm = λ k nonce s. s;
  to_base64url = λ parts. parts.ciphertext;
}

pub sample_env-FreshIds : FreshIds sample_env
sample_env-FreshIds = record { distinct = λ size m n e. tally_injective m n e }

abbrev pub laptop : RegisterDeviceInput
laptop = record {
  device_name = "laptop";
  platform = "linux";
  pubkey = "key";
  group_id = none;
  recovery_phrase = none;
}
