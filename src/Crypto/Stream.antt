-- ===== src/Crypto/Stream.antt =====
-- How MD5Update of src/tdk/crypto/md5.cpp and SHA1_Update of sha1.cpp cut their input into blocks
-- of 64 bytes. Both keep the bytes of a started block in a buffer.
pub mod Rules
pub mod Feed
pub mod Count
pub mod Absorb
use Prim.Native.Nat.{bit_and}
use deprecated_tdk.Prelude.{
  true, false, ℕ, zero, suc, ◌+◌, ◌-◌, List, [], ◌++◌, length, take, drop, leb, ltb, ◌*◌, ◌/◌, ◌%◌,
  ◌^◌, if◌then◌else◌,
}

-- `MD5_CTX` and `sha1::CONTEXT`: the state, the number of bits in two words, and the buffer.
pub record Context (S : Type 0) : Type 0 where
  pub state : S
  pub count0 : ℕ
  pub count1 : ℕ
  pub buffer : List ℕ

-- `memcpy( &old[i] , bytes , ... )`
abbrev pub paste : List ℕ → ℕ → List ℕ → List ℕ
paste old i bytes = take i old ++ (bytes ++ drop (i + length bytes) old)

module _ {S : Type 0} (transform : S → List ℕ → S) where
  -- `for (i = partLen; i + 63 < inputLen; i += 64)`: the state, and the bytes that are left.
  unfoldable pub blocks : ℕ → S → List ℕ → S × List ℕ
  blocks zero state input = (state, input)
  blocks (suc fuel) state input = elim (leb 64 (length input)) [
    | true ↦ blocks fuel (transform state (take 64 input)) (drop 64 input)
    | false ↦ (state, input)
  ]

  -- The rest of an update once the number of bits is added: the state and the buffer. `used` is
  -- what `transform` leaves of the buffer that it read.
  unfoldable pub feed : (List ℕ → List ℕ) → ℕ → S → List ℕ → List ℕ → S × List ℕ
  unfolding blocks
  feed used index state buffer input =
      let full = paste buffer index (take (64 - index) input) in
      let more = drop (64 - index) input in
      let (after, rest) = blocks (length input) (transform state full) more in
      if leb (64 - index) (length input)
      then (after, paste (used full) 0 rest)
      else (state, paste buffer index input)

-- The number of bits, in two words: the first is added to and compared with what was added.
unfoldable pub add_bits : ℕ → ℕ → ℕ → ℕ × ℕ
add_bits count0 count1 len =
    let bits = len * 2 ^ 3 % 2 ^ 32 in
    let low = (count0 + bits) % 2 ^ 32 in
    let carried = if ltb low bits then (count1 + 1) % 2 ^ 32 else count1 in
    (low, (carried + len / 2 ^ 29) % 2 ^ 32)

-- The whole update.
unfoldable pub absorb :
    {S : Type 0} → (S → List ℕ → S) → (List ℕ → List ℕ) → Context S → List ℕ → Context S
absorb transform used ctx input =
    let index = bit_and (ctx.count0 / 2 ^ 3) 0x3f in
    let (count0, count1) = add_bits ctx.count0 ctx.count1 (length input) in
    let (state, buffer) = feed transform used index ctx.state ctx.buffer input in
    record { state = state; count0 = count0; count1 = count1; buffer = buffer }
