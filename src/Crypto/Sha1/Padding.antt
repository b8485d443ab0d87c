-- ===== src/Crypto/Sha1/Padding.antt =====
-- The loop of SHA1_Final ends, and puts the zeros of the RFC behind the message.
use Prim.Native.Nat.{bit_and}
use mathlib.Core.Path.{subst}
use mathlib.Core.List.{append_assoc, append-nil}
use deprecated_tdk.Prelude.{
  ℕ, zero, suc, ◌+◌, ◌*◌, ◌/◌, ◌%◌, ◌^◌, ◌<◌, ◌≡◌, ◌∙◌, refl, sym, ap, true, false, ◌==◌, List, [],
  ◌∷◌, ◌++◌, length, length-append, replicate, arith,
}
use deprecated_tdk.Bits.Fields.{bit_and-double, bit_and-mask}
use deprecated_tdk.Crypto.Stream.{Context}
use deprecated_tdk.Crypto.Stream.Count.{low}
use deprecated_tdk.Crypto.Stream.Absorb.{Absorbed, update-Absorbed}
use deprecated_tdk.Crypto.Sha1.{State, transform, used, first, update, pad_zeros}
use deprecated_tdk.Crypto.Sha1.Used.{used-keeps}

-- The context took in the bytes.
abbrev pub IsAbsorbed : Context State → List ℕ → Type 0
IsAbsorbed ctx msg = Absorbed transform used used-keeps first ctx msg

pub sha1_update-Absorbed :
    (ctx : Context State) (msg input : List ℕ)
    → IsAbsorbed ctx msg
    → length input < 2 ^ 32
    → IsAbsorbed (update ctx input) (msg ++ input)
unfolding update
sha1_update-Absorbed ctx msg input a small =
    update-Absorbed transform used used-keeps first ctx msg a input small

-- The tested bits of the count are the number of bits in the last block.
tested : (n : ℕ) → bit_and (low n) 504 ≡ n % 64 * 8
tested n =
    let x = low n / 2 ^ 3 in
    let eight : low n ≡ x * 2 * 2 * 2 = omega arith in
    ap (λ l. bit_and l 504) eight
    ∙ bit_and-double (x * 2 * 2) (63 * 2 * 2)
    ∙ ap (λ t. t * 2)
        (bit_and-double (x * 2) (63 * 2)
          ∙ ap (λ t. t * 2) (bit_and-double x 63 ∙ ap (λ t. t * 2) (bit_and-mask 6 x)))
    ∙ omega arith

pad_zeros-done :
    (fuel : ℕ) (ctx : Context State)
    → (bit_and ctx.count0 504 == 448) ≡ true
    → pad_zeros (suc fuel) ctx ≡ ctx
unfolding pad_zeros
pad_zeros-done fuel ctx e = rw (pad_zeros, e) refl

pad_zeros-more :
    (fuel : ℕ) (ctx : Context State)
    → (bit_and ctx.count0 504 == 448) ≡ false
    → pad_zeros (suc fuel) ctx ≡ pad_zeros fuel (update ctx (0 ∷ []))
unfolding pad_zeros
pad_zeros-more fuel ctx e = rw (pad_zeros, e) refl

pub pad_zeros-Absorbed :
    (z fuel : ℕ) (ctx : Context State) (msg : List ℕ)
    → IsAbsorbed ctx msg
    → z < fuel
    → z < 64
    → (length msg + z) % 64 ≡ 56
    → IsAbsorbed (pad_zeros fuel ctx) (msg ++ replicate z 0)
pad_zeros-Absorbed z zero ctx msg a enough small e = absurd (omega arith)
pad_zeros-Absorbed zero (suc fuel) ctx msg a enough small e =
    let bits : bit_and ctx.count0 504 ≡ length msg % 64 * 8 =
      ap (λ c. bit_and c 504) a.count0 ∙ tested (length msg) in
    let full : bit_and ctx.count0 504 ≡ 448 = omega (arith, bits, e) in
    let done = pad_zeros-done fuel ctx (ground (arith, full)) in
    subst (λ c. IsAbsorbed c (msg ++ [])) (sym done)
      (subst (IsAbsorbed ctx) (sym (append-nil msg)) a)
pad_zeros-Absorbed (suc z) (suc fuel) ctx msg a enough small e =
    let bits : bit_and ctx.count0 504 ≡ length msg % 64 * 8 =
      ap (λ c. bit_and c 504) a.count0 ∙ tested (length msg) in
    let more = pad_zeros-more fuel ctx (ground (arith, bits, e, small)) in
    let next = sha1_update-Absorbed ctx msg (0 ∷ []) a (omega arith) in
    let rest =
      pad_zeros-Absorbed z fuel (update ctx (0 ∷ [])) (msg ++ (0 ∷ [])) next (omega arith)
        (omega arith) (omega (arith, e, length-append msg (0 ∷ []))) in
    subst (λ c. IsAbsorbed c (msg ++ (0 ∷ replicate z 0))) (sym more)
      (subst (IsAbsorbed (pad_zeros fuel (update ctx (0 ∷ []))))
        (append_assoc msg (0 ∷ []) (replicate z 0)) rest)
