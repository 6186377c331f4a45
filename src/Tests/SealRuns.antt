-- ===== src/Tests/SealRuns.antt =====
-- The theorem on sealed keys at an agent that writes bytes as strokes and texts with marks.
use Prim.Native.String.{◌∷◌, []}
use Prim.Native.Char.{code}
use sharepaste.Prelude.{
  ℕ, zero, suc, ◌+◌, ◌≡◌, refl, ap, ◌∙◌, String, List, arith, nat_eq, if◌then◌else◌,
}
use sharepaste.Client.Task.{returned}
use sharepaste.Client.Ports.{Bytes}
use sharepaste.Client.Crypto.Node.{
  NodeCrypto, SealedText, node_seal_group_key, node_unseal_group_key,
}
use sharepaste.Client.Crypto.RoundTrips.{SealsCorrectly, node_unseal-seal}
use sharepaste.Tests.CryptoRuns.{clear_text, clear_text-IsCorrect, no_tag}

-- n strokes and a stop
unfoldable pub strokes : ℕ → String → String
strokes zero rest = "." ∷ rest
strokes (suc n) rest = "x" ∷ strokes n rest

unfoldable pub draw_bytes : Bytes → String
unfolding strokes
draw_bytes List.[] = []
draw_bytes (List.◌∷◌ n ns) = strokes n (draw_bytes ns)

unfoldable pub count_from : ℕ → String → Bytes
count_from n [] = List.[]
count_from n (c ∷ s) =
    let stopped = count_from 0 s in
    let longer = count_from (suc n) s in if nat_eq (code c) 46 then List.◌∷◌ n stopped else longer

count_from-strokes :
    (n k : ℕ) (rest : String) → count_from k (strokes n rest) ≡ List.◌∷◌ (n + k) (count_from 0 rest)
unfolding strokes count_from
count_from-strokes zero k rest = ap (λ m. List.◌∷◌ m (count_from 0 rest)) (omega arith)
count_from-strokes (suc n) k rest =
    count_from-strokes n (suc k) rest ∙ ap (λ m. List.◌∷◌ m (count_from 0 rest)) (omega arith)

pub counted : (bytes : Bytes) → count_from 0 (draw_bytes bytes) ≡ bytes
unfolding draw_bytes count_from
counted List.[] = refl
counted (List.◌∷◌ n ns) =
    count_from-strokes n 0 (draw_bytes ns)
    ∙ ap (λ m. List.◌∷◌ m (count_from 0 (draw_bytes ns))) (omega arith)
    ∙ ap (List.◌∷◌ n) (counted ns)

-- A text with a mark before each character and a stop.
unfoldable pub marked : String → String → String
marked [] rest = "." ∷ rest
marked (c ∷ s) rest = "x" ∷ c ∷ marked s rest

unfoldable pub unmarked : String → String × String
unmarked [] = ([], [])
unmarked (m ∷ []) = ([], [])
unmarked (m ∷ c ∷ s) =
    let rest = unmarked s in if nat_eq (code m) 46 then ([], c ∷ s) else (c ∷ rest.0, rest.1)

pub unmarked-marked : (s rest : String) → unmarked (marked s rest) ≡ (s, rest)
unfolding marked unmarked
unmarked-marked [] [] = refl
unmarked-marked [] (c ∷ rest) = refl
unmarked-marked (c ∷ s) rest = ap (λ r. (c ∷ r.0, r.1)) (unmarked-marked s rest)

unfoldable pub written_parts : SealedText → String
unfolding marked
written_parts p = marked p.epk (marked p.nonce (marked p.ciphertext []))

unfoldable pub read_parts : String → SealedText
unfolding unmarked
read_parts s =
    let a = unmarked s in
    let b = unmarked a.1 in
    let c = unmarked b.1 in record { epk = a.0; nonce = b.0; ciphertext = c.0 }

read_parts-written_parts : (p : SealedText) → read_parts (written_parts p) ≡ p
unfolding read_parts written_parts
read_parts-written_parts p =
    rw
      (
        unmarked-marked p.epk (marked p.nonce (marked p.ciphertext [])),
        unmarked-marked p.nonce (marked p.ciphertext []),
        unmarked-marked p.ciphertext [],
      )
      refl

abbrev pub by_hand : NodeCrypto
by_hand = record clear_text {
  base64url_text = draw_bytes;
  base64url_bytes = count_from 0;
  write_sealed = written_parts;
  read_sealed = λ s. returned (read_parts s);
}

pub by_hand-SealsCorrectly : SealsCorrectly by_hand
by_hand-SealsCorrectly = record {
  gcm = record { opens = clear_text-IsCorrect.opens; tag_size = clear_text-IsCorrect.tag_size };
  agree = λ i j. refl;
  decodes = counted;
  reads = λ parts. ap returned (read_parts-written_parts parts);
}

abbrev sealed_key : String
sealed_key = written_parts (record {
  epk = "p";
  nonce = draw_bytes (List.◌∷◌ 4 List.[]);
  ciphertext = draw_bytes (List.◌∷◌ 5 no_tag);
})

seals_key :
    node_seal_group_key by_hand 3 (List.◌∷◌ 5 List.[]) (by_hand.x25519_public 8)
    ≡ returned sealed_key
unfolding node_seal_group_key
seals_key = refl

node_unseal-seal_example :
    node_unseal_group_key by_hand sealed_key (by_hand.x25519_private 8)
    ≡ returned (List.◌∷◌ 5 List.[])
node_unseal-seal_example =
    node_unseal-seal by_hand by_hand-SealsCorrectly 3 8 (List.◌∷◌ 5 List.[]) sealed_key seals_key
