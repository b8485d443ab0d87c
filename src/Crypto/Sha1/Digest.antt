-- ===== src/Crypto/Sha1/Digest.antt =====
-- SHA-1 of a message that comes in pieces is SHA-1 of the whole message.
use deprecated_tdk.Prelude.{
  ℕ, ◌-◌, ◌%◌, ◌^◌, ◌<◌, ◌≡◌, ◌∙◌, refl, ap, List, [], ◌∷◌, ◌++◌, length, length-append,
  length-replicate, arith,
}
use deprecated_tdk.Crypto.Stream.{Context}
use deprecated_tdk.Crypto.Stream.Count.{low, high}
use deprecated_tdk.Crypto.Stream.Absorb.{
  first-Absorbed, whole-run, updates, joined, updates-Absorbed,
}
use deprecated_tdk.Crypto.Sha1.{
  State, transform, used, first, reset, update, pad_zeros, big_endian, value,
}
use deprecated_tdk.Crypto.Sha1.Used.{used-keeps}
use deprecated_tdk.Crypto.Sha1.Spec.{zeros, padded, output, sha1}
use deprecated_tdk.Crypto.Sha1.Padding.{IsAbsorbed, sha1_update-Absorbed, pad_zeros-Absorbed}

length-bits : (x y : ℕ) → length (big_endian (x ∷ y ∷ [])) ≡ 8
unfolding big_endian
length-bits x y = refl

length-padded : (msg : List ℕ) → length (padded msg) % 64 ≡ 0
length-padded msg = omega (
  arith,
  length-append ((msg ++ (0x80 ∷ [])) ++ zeros (length msg))
      (big_endian (high (length msg) ∷ low (length msg) ∷ [])),
  length-append (msg ++ (0x80 ∷ [])) (zeros (length msg)),
  length-append msg (0x80 ∷ []),
  length-replicate {A = ℕ} ((119 - length msg % 64) % 64) 0,
  length-bits (high (length msg)) (low (length msg)),
)

-- The digest once the count is known.
abbrev closed : Context State → List ℕ → List ℕ
closed ctx count = output (update (pad_zeros 64 (update ctx (0x80 ∷ []))) count).state

value_lem : (ctx : Context State) (msg : List ℕ) → IsAbsorbed ctx msg → value ctx ≡ sha1 msg
unfolding value sha1
value_lem ctx msg a =
    let count = big_endian (high (length msg) ∷ low (length msg) ∷ []) in
    let a₁ = sha1_update-Absorbed ctx msg (0x80 ∷ []) a (omega arith) in
    let a₂ =
      pad_zeros-Absorbed ((119 - length msg % 64) % 64) 64 (update ctx (0x80 ∷ []))
        (msg ++ (0x80 ∷ [])) a₁ (omega arith) (omega arith)
        (omega (arith, length-append msg (0x80 ∷ []))) in
    let a₃ =
      sha1_update-Absorbed (pad_zeros 64 (update ctx (0x80 ∷ [])))
        ((msg ++ (0x80 ∷ [])) ++ zeros (length msg)) count a₂
        (omega (arith, length-bits (high (length msg)) (low (length msg)))) in
    ap (λ c. closed ctx (big_endian (c ∷ ctx.count0 ∷ []))) a.count1
    ∙ ap (λ c. closed ctx (big_endian (high (length msg) ∷ c ∷ []))) a.count0
    ∙ ap output (
        whole-run transform used used-keeps first
          (update (pad_zeros 64 (update ctx (0x80 ∷ []))) count) (padded msg) a₃
          (length-padded msg))

-- A message may come in pieces of any lengths: the value is the digest of the whole message, and
-- does not depend on what the buffer held before, nor on what the transform leaves in it.
pub sha1-value-updates :
    (buffer : List ℕ) (pieces : List (List ℕ))
    → length buffer ≡ 64
    → length (joined pieces) < 2 ^ 32
    → value (updates update (reset buffer) pieces) ≡ sha1 (joined pieces)
unfolding reset update
sha1-value-updates buffer pieces size small =
    value_lem (updates update (reset buffer) pieces) (joined pieces) (
      updates-Absorbed transform used used-keeps first pieces (reset buffer) []
        (first-Absorbed transform used used-keeps first buffer size) small)
