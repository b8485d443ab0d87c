-- ===== src/Crypto/Stream/Count.antt =====
-- The two words of the bit count are the number of bits modulo 2 ^ 64, and give the index.
use Prim.Native.Nat.{bit_and}
use deprecated_tdk.Prelude.{ℕ, ◌+◌, ◌*◌, ◌/◌, ◌%◌, ◌^◌, ◌<◌, ◌≡◌, ◌∙◌, arith}
use deprecated_tdk.Bits.Fields.{bit_and-mask}
use deprecated_tdk.Crypto.Stream.{add_bits}

-- The words of the count after `n` bytes.
abbrev pub low : ℕ → ℕ
low n = n * 8 % 2 ^ 32

abbrev pub high : ℕ → ℕ
high n = n * 8 / 2 ^ 32 % 2 ^ 32

pub add_bits_lem :
    (n len : ℕ) → len < 2 ^ 32 → add_bits (low n) (high n) len ≡ (low (n + len), high (n + len))
unfolding add_bits
add_bits_lem n len small = ground arith

pub index_lem : (n : ℕ) → bit_and (low n / 2 ^ 3) 0x3f ≡ n % 64
index_lem n = bit_and-mask 6 (low n / 2 ^ 3) ∙ omega arith
