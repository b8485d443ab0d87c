-- ===== src/Crypto/Sha1.antt =====
-- src/tdk/crypto/sha1.cpp: SHA-1, on a machine with the low byte first and an `unsigned long` of
-- 32 bits. The transform expands a block in place, also where the block lies in the caller's
-- memory; here it returns what it leaves there.
pub mod Spec
pub mod Used
pub mod Padding
pub mod Digest
mod Tests
use Prim.Native.Nat.{bit_and, bit_or, bit_xor}
use deprecated_tdk.Prelude.{
  ℕ, zero, suc, ◌+◌, ◌-◌, ◌*◌, ◌/◌, ◌%◌, ◌^◌, List, [], ◌∷◌, length, get_or, set, ltb, true, false,
  ◌==◌, if◌then◌else◌,
}
use deprecated_tdk.Crypto.Stream.{Context, absorb}
use deprecated_tdk.Crypto.Md5.{decode_words, encode_words}

-- The five words of a state.
pub record State : Type 0 where
  pub a : ℕ
  pub b : ℕ
  pub c : ℕ
  pub d : ℕ
  pub e : ℕ

-- `rol`
rol : ℕ → ℕ → ℕ
rol value bits = bit_or (value * 2 ^ bits % 2 ^ 32) (value / 2 ^ (32 - bits))

-- `htonl`
pub htonl : ℕ → ℕ
htonl w =
    w % 2 ^ 8 * 2 ^ 24
    + w / 2 ^ 8 % 2 ^ 8 * 2 ^ 16
    + w / 2 ^ 16 % 2 ^ 8 * 2 ^ 8
    + w / 2 ^ 24 % 2 ^ 8

-- `blk0( i )` and `blk( i )`: the new word `i`, and the block with it.
blk0 : List ℕ → ℕ → ℕ × List ℕ
unfolding htonl
blk0 l i = let w = htonl (get_or l i 0) in (w, set l i w)

blk : List ℕ → ℕ → ℕ × List ℕ
unfolding rol
blk l i =
    let w =
      rol
        (bit_xor
          (bit_xor (bit_xor (get_or l ((i + 13) % 16) 0) (get_or l ((i + 8) % 16) 0))
            (get_or l ((i + 2) % 16) 0))
          (get_or l (i % 16) 0))
        1 in
    (w, set l (i % 16) w)

-- The functions and constants of `R0` and `R1`, of `R2`, of `R3` and of `R4`, by the number of the
-- round.
mix : ℕ → ℕ → ℕ → ℕ → ℕ
mix i w x y =
    if ltb i 20
    then bit_xor (bit_and w (bit_xor x y)) y
    else if ltb i 40
    then bit_xor (bit_xor w x) y
    else if ltb i 60
    then bit_or (bit_and (bit_or w x) y) (bit_and w x)
    else bit_xor (bit_xor w x) y

constant : ℕ → ℕ
constant i =
    if ltb i 20
    then 0x5a82_7999
    else if ltb i 40
    then 0x6ed9_eba1
    else if ltb i 60
    then 0x8f1b_bcdc
    else 0xca62_c1d6

-- One of the macros. The next one takes the words in the order e, a, b, c, d: here the words move
-- on by one place instead.
round : ℕ → List ℕ × State → List ℕ × State
unfolding rol blk0 blk mix constant
round i (l, r) =
    let (word, l') = if ltb i 16 then blk0 l i else blk l i in
    let z = (r.e + mix i r.b r.c r.d + word + constant i + rol r.a 5) % 2 ^ 32 in
    (l', record { a = z; b = r.a; c = rol r.b 30; d = r.c; e = r.d })

-- `n` rounds from round `i` on.
rounds : ℕ → ℕ → List ℕ × State → List ℕ × State
unfolding round
rounds zero i r = r
rounds (suc n) i r = rounds n (i + 1) (round i r)

-- `SHA1_Transform`: the state, and what is left in the block.
pub transform : State → List ℕ → State
unfolding rounds
transform s block =
    let (l, r) = rounds 80 0 (decode_words block, s) in
    record {
      a = (s.a + r.a) % 2 ^ 32;
      b = (s.b + r.b) % 2 ^ 32;
      c = (s.c + r.c) % 2 ^ 32;
      d = (s.d + r.d) % 2 ^ 32;
      e = (s.e + r.e) % 2 ^ 32;
    }

abbrev pub first : State
first = record {
  a = 0x6745_2301;
  b = 0xefcd_ab89;
  c = 0x98ba_dcfe;
  d = 0x1032_5476;
  e = 0xc3d2_e1f0;
}

pub used : List ℕ → List ℕ
unfolding rounds
used block = let (l, r) = rounds 80 0 (decode_words block, first) in encode_words l

-- `SHA1_Init`, the constructor and `reset`; the buffer is not set, here it is any 64 bytes.
pub reset : List ℕ → Context State
reset buffer = record { state = first; count0 = 0; count1 = 0; buffer = buffer }

-- `SHA1_Update`, `update`: the list is the input.
pub update : Context State → List ℕ → Context State
unfolding transform used
update = absorb transform used

-- The high byte of each word first.
pub big_endian : List ℕ → List ℕ
big_endian [] = []
big_endian (w ∷ words) =
    bit_and (w / 2 ^ 24) 255
    ∷ bit_and (w / 2 ^ 16) 255
    ∷ bit_and (w / 2 ^ 8) 255
    ∷ bit_and w 255
    ∷ big_endian words

-- `while ((context->count[0] & 504) != 448)`; 64 rounds are enough.
pub pad_zeros : ℕ → Context State → Context State
unfolding update
pad_zeros zero ctx = ctx
pad_zeros (suc fuel) ctx = elim (bit_and ctx.count0 504 == 448) [
  | true ↦ ctx
  | false ↦ pad_zeros fuel (update ctx (0 ∷ []))
]

-- `SHA1_Final`, `value`: the digest. The context is zero after it.
pub value : Context State → List ℕ
unfolding update pad_zeros big_endian
value ctx =
    let finalcount = big_endian (ctx.count1 ∷ ctx.count0 ∷ []) in
    let padded = update (pad_zeros 64 (update ctx (0x80 ∷ []))) finalcount in
    big_endian
      (padded.state.a ∷ padded.state.b ∷ padded.state.c ∷ padded.state.d ∷ padded.state.e ∷ [])
