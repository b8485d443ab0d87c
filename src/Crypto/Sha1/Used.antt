-- ===== src/Crypto/Sha1/Used.antt =====
-- The transform leaves a block of the same size.
use deprecated_tdk.Prelude.{
  ℕ, zero, suc, ◌+◌, ◌*◌, ◌%◌, ◌≡◌, ◌∙◌, refl, ap, List, [], ◌∷◌, length, length-set, ltb,
  Bool-cases, inl, inr, arith,
}
use deprecated_tdk.Crypto.Md5.{decode_words, encode_words}
use deprecated_tdk.Crypto.Sha1.{State, blk0, blk, round, rounds, used, first}

length-decode : (n : ℕ) (bytes : List ℕ) → length bytes ≡ n * 4 → length (decode_words bytes) ≡ n
unfolding decode_words
length-decode zero [] h = refl
length-decode zero (w ∷ bytes) h = absurd (omega arith)
length-decode (suc n) [] h = absurd (omega arith)
length-decode (suc n) (w ∷ []) h = absurd (omega arith)
length-decode (suc n) (w ∷ x ∷ []) h = absurd (omega arith)
length-decode (suc n) (w ∷ x ∷ y ∷ []) h = absurd (omega arith)
length-decode (suc n) (w ∷ x ∷ y ∷ z ∷ bytes) h = ap suc (length-decode n bytes (omega arith))

length-encode : (words : List ℕ) → length (encode_words words) ≡ length words * 4
unfolding encode_words
length-encode [] = refl
length-encode (w ∷ words) = omega (arith, length-encode words)

length-round : (i : ℕ) (l : List ℕ) (r : State) → length (round i (l, r)).0 ≡ length l
unfolding round blk0 blk
length-round i l r = elim (Bool-cases (ltb i 16)) [
  | inl early ↦ rw early (length-set l i _)
  | inr late ↦ rw late (length-set l (i % 16) _)
]

length-rounds : (n i : ℕ) (r : List ℕ × State) → length (rounds n i r).0 ≡ length r.0
unfolding rounds
length-rounds zero i r = refl
length-rounds (suc n) i (l, r) = length-rounds n (i + 1) (round i (l, r)) ∙ length-round i l r

pub used-keeps : (block : List ℕ) → length block ≡ 64 → length (used block) ≡ 64
unfolding used
used-keeps block size = omega (
  arith,
  length-encode (rounds 80 0 (decode_words block, first)).0,
  length-rounds 80 0 (decode_words block, first),
  length-decode 16 block size,
)
