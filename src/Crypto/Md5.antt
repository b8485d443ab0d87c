-- ===== src/Crypto/Md5.antt =====
-- src/tdk/crypto/md5.cpp: MD5 as the source unrolls it. `unsigned int` is 32 bits wide.
mod Rounds
pub mod Spec
pub mod Digest
mod Tests
use Prim.Native.Nat.{bit_and, bit_or, bit_xor}
use deprecated_tdk.Prelude.{
  ℕ, zero, suc, ◌+◌, ◌-◌, ◌*◌, ◌/◌, ◌%◌, ◌^◌, List, [], ◌∷◌, ◌++◌, length, take, replicate, get_or,
  ltb, if◌then◌else◌,
}
use deprecated_tdk.Crypto.Stream.{Context, absorb}
use deprecated_tdk.Crypto.Md5.Rounds.{round1, round2, round3, round4}

-- The four words of a state.
pub record State : Type 0 where
  pub a : ℕ
  pub b : ℕ
  pub c : ℕ
  pub d : ℕ

abbrev complement : ℕ → ℕ
complement x = 0xffff_ffff - x

-- The macros `F`, `G`, `H` and `I`.
mix_f : ℕ → ℕ → ℕ → ℕ
mix_f x y z = bit_or (bit_and x y) (bit_and (complement x) z)

mix_g : ℕ → ℕ → ℕ → ℕ
mix_g x y z = bit_or (bit_and x z) (bit_and y (complement z))

mix_h : ℕ → ℕ → ℕ → ℕ
mix_h x y z = bit_xor (bit_xor x y) z

mix_i : ℕ → ℕ → ℕ → ℕ
mix_i x y z = bit_xor y (bit_or x (complement z))

-- `ROTATE_LEFT`
rotate_left : ℕ → ℕ → ℕ
rotate_left x n = bit_or (x * 2 ^ n % 2 ^ 32) (x / 2 ^ (32 - n))

-- `FF (a, b, c, d, x, s, ac)`, and likewise `GG`, `HH` and `II`. The next line of the source takes
-- the words in the order d, a, b, c: here the words move on by one place instead.
step : (ℕ → ℕ → ℕ → ℕ) → List ℕ → State → ℕ × ℕ × ℕ → State
unfolding rotate_left
step f x r (i, s, ac) =
    let sum = (r.a + f r.b r.c r.d + get_or x i 0 + ac) % 2 ^ 32 in
    record { a = r.d; b = (rotate_left sum s + r.b) % 2 ^ 32; c = r.b; d = r.c }

steps : (ℕ → ℕ → ℕ → ℕ) → List ℕ → State → List (ℕ × ℕ × ℕ) → State
unfolding step
steps f x r [] = r
steps f x r (line ∷ lines) = steps f x (step f x r line) lines

-- `Decode`; a rest of less than four bytes is not read.
unfoldable pub decode_words : List ℕ → List ℕ
decode_words (w ∷ x ∷ y ∷ z ∷ input) =
    bit_or (bit_or (bit_or w (x * 2 ^ 8)) (y * 2 ^ 16)) (z * 2 ^ 24) ∷ decode_words input
decode_words input = []

-- `Encode`
unfoldable pub encode_words : List ℕ → List ℕ
encode_words [] = []
encode_words (w ∷ input) =
    bit_and w 0xff
    ∷ bit_and (w / 2 ^ 8) 0xff
    ∷ bit_and (w / 2 ^ 16) 0xff
    ∷ bit_and (w / 2 ^ 24) 0xff
    ∷ encode_words input

-- `MD5Transform`
pub transform : State → List ℕ → State
unfolding steps decode_words mix_f mix_g mix_h mix_i
transform s block =
    let x = decode_words block in
    let r₁ = steps mix_f x s round1 in
    let r₂ = steps mix_g x r₁ round2 in
    let r₃ = steps mix_h x r₂ round3 in
    let r₄ = steps mix_i x r₃ round4 in
    record {
      a = (s.a + r₄.a) % 2 ^ 32;
      b = (s.b + r₄.b) % 2 ^ 32;
      c = (s.c + r₄.c) % 2 ^ 32;
      d = (s.d + r₄.d) % 2 ^ 32;
    }

abbrev pub first : State
first = record { a = 0x6745_2301; b = 0xefcd_ab89; c = 0x98ba_dcfe; d = 0x1032_5476 }

-- `MD5Init`, the constructor and `reset`; the buffer is not set, here it is any 64 bytes.
pub reset : List ℕ → Context State
reset buffer = record { state = first; count0 = 0; count1 = 0; buffer = buffer }

-- `MD5Update`, `update`: the list is the input.
pub update : Context State → List ℕ → Context State
unfolding transform
update = absorb transform (λ b. b)

-- `PADDING`
abbrev pub padding_bytes : List ℕ
padding_bytes = 0x80 ∷ replicate 63 0

-- `MD5Final`, `value`: the digest. The context is zero after it.
pub value : Context State → List ℕ
unfolding update encode_words
value ctx =
    let bits = encode_words (ctx.count0 ∷ ctx.count1 ∷ []) in
    let index = bit_and (ctx.count0 / 2 ^ 3) 0x3f in
    let pad_len = if ltb index 56 then 56 - index else 120 - index in
    let padded = update (update ctx (take pad_len padding_bytes)) bits in
    encode_words (padded.state.a ∷ padded.state.b ∷ padded.state.c ∷ padded.state.d ∷ [])
