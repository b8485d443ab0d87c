-- ===== src/Crypto/Crc32/Serial.antt =====
-- The table-driven checksum against the definition of CRC-32: a shift register that takes the
-- message bit by bit and subtracts the polynomial where a one falls out.
use Prim.Native.Nat.{bit_xor}
use deprecated_tdk.Prelude.{
  ℕ, zero, suc, ◌*◌, ◌/◌, ◌%◌, ◌^◌, ◌<◌, ◌≡◌, refl, true, List, [], ◌∷◌, arith, ◌==◌, ==_iff,
  if◌then◌else◌, Bytes, all_below, all_below_sound,
}
use deprecated_tdk.Bits.Xor.{
  bit_xor_cross, bit_xor_comm, bit_xor-zero, bit_xor-lt, bit_xor_assoc, bit_xor-add,
  bit_xor-div_two, bit_xor-mod_two,
}
use deprecated_tdk.Bits.Fields.{bit_and-mask, double_pow}
use deprecated_tdk.Crypto.Crc32.{Crc32, entry, update_byte, update_crc, update}

-- The polynomial of CRC-32, lowest power in the highest bit.
abbrev pub polynomial : ℕ
polynomial = 0xedb8_8320

-- One bit leaves the register.
unfoldable pub shift_bit : ℕ → ℕ
shift_bit r = if r % 2 == 0 then r / 2 else bit_xor (r / 2) polynomial

unfoldable pub shift_bits : ℕ → ℕ → ℕ
shift_bits zero r = r
shift_bits (suc n) r = shift_bits n (shift_bit r)

-- The register after a message: each byte enters at the low end, and eight bits leave.
pub register : ℕ → List ℕ → ℕ
register r [] = r
register r (byte ∷ bytes) = register (shift_bits 8 (bit_xor r byte)) bytes

shift_bit-xor : (a b : ℕ) → shift_bit (bit_xor a b) ≡ bit_xor (shift_bit a) (shift_bit b)
unfolding shift_bit
shift_bit-xor a b = ground (
  arith,
  bit_xor-div_two a b,
  bit_xor-mod_two a b,
  bit_xor_cross (a / 2) polynomial (b / 2) polynomial,
  bit_xor_cross (a / 2) polynomial (b / 2) 0,
  bit_xor_cross (a / 2) 0 (b / 2) polynomial,
  bit_xor-zero (a / 2),
  bit_xor-zero (b / 2),
  bit_xor-zero (bit_xor (a / 2) (b / 2)),
)

shift_bits-xor :
    (n a b : ℕ) → shift_bits n (bit_xor a b) ≡ bit_xor (shift_bits n a) (shift_bits n b)
unfolding shift_bits
shift_bits-xor zero a b = refl
shift_bits-xor (suc n) a b = rw (shift_bit-xor a b, shift_bits-xor n (shift_bit a) (shift_bit b))

shift_bit-double : (q : ℕ) → shift_bit (2 * q) ≡ q
unfolding shift_bit
shift_bit-double q = ground arith

-- Zeros that leave the register do not bring in the polynomial.
shift_bits-zeros : (n q : ℕ) → shift_bits n (q * 2 ^ n) ≡ q
unfolding shift_bits
shift_bits-zeros zero q = omega arith
shift_bits-zeros (suc n) q = rw (double_pow q n, shift_bit-double (q * 2 ^ n), shift_bits-zeros n q)

entry_table : all_below 256 (λ i. entry i == shift_bits 8 i) ≡ true
unfolding all_below entry shift_bits shift_bit
entry_table = refl

pub entry_lem : (i : ℕ) → i < 256 → entry i ≡ shift_bits 8 i
entry_lem i h =
    (==_iff _ _).0 (all_below_sound 256 (λ i. entry i == shift_bits 8 i) i entry_table h)

-- The low byte of `_crc32` is looked up, the others move down.
split-low : (r b : ℕ) → b < 256 → bit_xor r b ≡ bit_xor (r / 256 * 2 ^ 8) (bit_xor b (r % 256))
split-low r b h = ground (
  arith,
  bit_xor-add 8 (r / 256) (r % 256),
  bit_xor_assoc (r / 256 * 256) (r % 256) b,
  bit_xor_comm (r % 256) b,
)

-- One round of `update` is eight shifts of the register.
pub update_byte-register : (r b : ℕ) → b < 256 → update_byte r b ≡ shift_bits 8 (bit_xor r b)
unfolding update_byte
update_byte-register r b h = rw (
  split-low r b h,
  shift_bits-xor 8 (r / 256 * 2 ^ 8) (bit_xor b (r % 256)),
  shift_bits-zeros 8 (r / 256),
  bit_and-mask 8 r,
  entry_lem (bit_xor b (r % 256)) (bit_xor-lt 8 b (r % 256) h (omega arith)),
)

update_crc-register : (r : ℕ) (bytes : List ℕ) → Bytes bytes → update_crc r bytes ≡ register r bytes
unfolding update_crc register
update_crc-register r [] h = refl
update_crc-register r (b ∷ bytes) h =
    rw (update_byte-register r b h.0) (update_crc-register (shift_bits 8 (bit_xor r b)) bytes h.1)

-- `update` with its table leaves what the bit-by-bit shift register holds after the same bytes.
pub update-register :
    (c : Crc32) (bytes : List ℕ) → Bytes bytes → (update c bytes).crc ≡ register c.crc bytes
unfolding update
update-register c bytes h = update_crc-register c.crc bytes h
