-- ===== src/Crypto/Md5/Digest.antt =====
-- MD5 of a message that comes in pieces is MD5 of the whole message.
use Prim.Native.Nat.{bit_and}
use mathlib.Core.List.{append_assoc}
use deprecated_tdk.Prelude.{
  ℕ, suc, ◌-◌, ◌/◌, ◌%◌, ◌^◌, ◌<◌, ◌≡◌, ◌∙◌, refl, sym, ap, List, [], ◌∷◌, ◌++◌, length,
  length-append, length-replicate, take, take-replicate, replicate, arith, ltb, if◌then◌else◌,
}
use deprecated_tdk.Crypto.Stream.{Context}
use deprecated_tdk.Crypto.Stream.Absorb.{
  Absorbed, first-Absorbed, update-Absorbed, length-tail, index-tail, whole-run, updates, joined,
  updates-Absorbed,
}
use deprecated_tdk.Crypto.Stream.Rules.{run}
use deprecated_tdk.Crypto.Stream.Count.{low, high}
use deprecated_tdk.Crypto.Md5.{
  State, transform, reset, update, value, encode_words, first, padding_bytes,
}
use deprecated_tdk.Crypto.Md5.Spec.{md5, output}

-- The context took in the bytes.
abbrev IsAbsorbed : Context State → List ℕ → Type 0
IsAbsorbed ctx msg = Absorbed transform (λ b. b) (λ b e. e) first ctx msg

-- What `value` appends is the padding of the RFC.
pad_len_lem :
    (n : ℕ) → (if ltb (n % 64) 56 then 56 - n % 64 else 120 - n % 64) ≡ suc ((119 - n % 64) % 64)
pad_len_lem n = ground arith

take-padding : (k : ℕ) → k < 64 → take (suc k) padding_bytes ≡ 0x80 ∷ replicate k 0
take-padding k small = ap (λ t. 0x80 ∷ t) (take-replicate k 63 0 (omega arith))

length-bits : (x y : ℕ) → length (encode_words (x ∷ y ∷ [])) ≡ 8
unfolding encode_words
length-bits x y = refl

abbrev zeros : List ℕ → List ℕ
zeros msg = 0x80 ∷ replicate ((119 - length msg % 64) % 64) 0

abbrev bits : List ℕ → List ℕ
bits msg = encode_words (low (length msg) ∷ high (length msg) ∷ [])

padding_lem : (msg : List ℕ) → length ((msg ++ zeros msg) ++ bits msg) % 64 ≡ 0
padding_lem msg = omega (
  arith,
  length-append (msg ++ zeros msg) (bits msg),
  length-append msg (zeros msg),
  length-replicate {A = ℕ} ((119 - length msg % 64) % 64) 0,
  length-bits (low (length msg)) (high (length msg)),
)

-- The digest once the padding and the count are known.
abbrev closed : Context State → List ℕ → List ℕ → List ℕ
closed ctx pads count = output (update (update ctx pads) count).state

value-closed :
    (ctx : Context State) (msg : List ℕ)
    → IsAbsorbed ctx msg
    → value ctx ≡ closed ctx (zeros msg) (bits msg)
unfolding value
value-closed ctx msg a =
    let index : bit_and (ctx.count0 / 2 ^ 3) 0x3f ≡ length msg % 64 =
      index-tail transform (λ b. b) (λ b e. e) first ctx msg a
      ∙ sym (length-tail transform (λ b. b) (λ b e. e) first ctx msg a) in
    let count : encode_words (ctx.count0 ∷ ctx.count1 ∷ []) ≡ bits msg =
      ap (λ c. encode_words (c ∷ ctx.count1 ∷ [])) a.count0
      ∙ ap (λ c. encode_words (low (length msg) ∷ c ∷ [])) a.count1 in
    let pads : take
          (if ltb (length msg % 64) 56 then 56 - length msg % 64 else 120 - length msg % 64)
          padding_bytes
        ≡ zeros msg =
      ap (λ k. take k padding_bytes) (pad_len_lem (length msg))
      ∙ take-padding ((119 - length msg % 64) % 64) (omega arith) in
    ap
      (λ i.
        closed ctx (take (if ltb i 56 then 56 - i else 120 - i) padding_bytes)
          (encode_words (ctx.count0 ∷ ctx.count1 ∷ [])))
      index
    ∙ ap (λ t. closed ctx t (encode_words (ctx.count0 ∷ ctx.count1 ∷ []))) pads
    ∙ ap (closed ctx (zeros msg)) count

-- `value` gives the digest of the bytes that the context took in.
value_lem : (ctx : Context State) (msg : List ℕ) → IsAbsorbed ctx msg → value ctx ≡ md5 msg
unfolding md5 update
value_lem ctx msg a =
    let a₁ =
      update-Absorbed transform (λ b. b) (λ b e. e) first ctx msg a (zeros msg)
        (omega (arith, length-replicate {A = ℕ} ((119 - length msg % 64) % 64) 0)) in
    let a₂ =
      update-Absorbed transform (λ b. b) (λ b e. e) first (update ctx (zeros msg))
        (msg ++ zeros msg) a₁ (bits msg)
        (omega (arith, length-bits (low (length msg)) (high (length msg)))) in
    value-closed ctx msg a
    ∙ ap output (
        whole-run transform (λ b. b) (λ b e. e) first (update (update ctx (zeros msg)) (bits msg))
          ((msg ++ zeros msg) ++ bits msg) a₂ (padding_lem msg)
        ∙ ap (λ p. run transform (length p / 64) first p) (append_assoc msg (zeros msg) (bits msg)))

-- A message may come in pieces of any lengths: the value is the digest of the whole message, and
-- does not depend on what the buffer held before.
pub value-updates :
    (buffer : List ℕ) (pieces : List (List ℕ))
    → length buffer ≡ 64
    → length (joined pieces) < 2 ^ 32
    → value (updates update (reset buffer) pieces) ≡ md5 (joined pieces)
unfolding reset update
value-updates buffer pieces size small =
    value_lem (updates update (reset buffer) pieces) (joined pieces) (
      updates-Absorbed transform (λ b. b) (λ b e. e) first pieces (reset buffer) []
        (first-Absorbed transform (λ b. b) (λ b e. e) first buffer size) small)
