-- ===== src/Crypto/Crc32/Detect.antt =====
-- Which changes of a message the checksum cannot miss: the register can be run backwards.
use Prim.Native.Nat.{bit_xor}
use deprecated_tdk.Prelude.{
  ℕ, zero, suc, ◌-◌, ◌/◌, ◌^◌, ◌≤◌, ◌<◌, ◌≡◌, ◌≢◌, refl, sym, ◌∙◌, List, [], ◌∷◌, ◌++◌, arith,
  Bytes, All-append,
}
use deprecated_tdk.Bits.Xor.{
  bit_xor-add, bit_xor_comm, bit_xor-zero, bit_xor-lt, bit_xor_assoc, bit_xor_self,
}
use deprecated_tdk.Crypto.Crc32.{Crc32, update, value, reset, update_crc, update_byte}
use deprecated_tdk.Crypto.Crc32.Serial.{polynomial, shift_bit, shift_bits, update_byte-register}

xor-cancel : (a b c : ℕ) → bit_xor a c ≡ bit_xor b c → a ≡ b
xor-cancel a b c h = ground (
  arith,
  bit_xor_assoc a c c,
  bit_xor_assoc b c c,
  bit_xor_self c,
  bit_xor-zero a,
  bit_xor-zero b,
)

-- The polynomial has its highest bit set, so it marks a register that lost a one.
xor-polynomial-ge : (a : ℕ) → a < 2 ^ 31 → 2 ^ 31 ≤ bit_xor a polynomial
xor-polynomial-ge a h = ground (
  arith,
  bit_xor_comm a polynomial,
  bit_xor-add 31 1 (polynomial - 2 ^ 31),
  bit_xor_assoc (2 ^ 31) (polynomial - 2 ^ 31) a,
  bit_xor-add 31 1 (bit_xor (polynomial - 2 ^ 31) a),
  bit_xor-lt 31 (polynomial - 2 ^ 31) a,
)

shift_bit-lt : (r : ℕ) → r < 2 ^ 32 → shift_bit r < 2 ^ 32
unfolding shift_bit
shift_bit-lt r h = ground (arith, bit_xor-lt 32 (r / 2) polynomial)

shift_bit_injective : (r s : ℕ) → r < 2 ^ 32 → s < 2 ^ 32 → shift_bit r ≡ shift_bit s → r ≡ s
unfolding shift_bit
shift_bit_injective r s p q h = ground (
  arith,
  xor-polynomial-ge (r / 2),
  xor-polynomial-ge (s / 2),
  xor-cancel (r / 2) (s / 2) polynomial,
)

shift_bits-lt : (n r : ℕ) → r < 2 ^ 32 → shift_bits n r < 2 ^ 32
unfolding shift_bits
shift_bits-lt zero r h = h
shift_bits-lt (suc n) r h = shift_bits-lt n (shift_bit r) (shift_bit-lt r h)

shift_bits_injective :
    (n r s : ℕ) → r < 2 ^ 32 → s < 2 ^ 32 → shift_bits n r ≡ shift_bits n s → r ≡ s
unfolding shift_bits
shift_bits_injective zero r s p q h = h
shift_bits_injective (suc n) r s p q h =
    shift_bit_injective r s p q
      (shift_bits_injective n (shift_bit r) (shift_bit s) (shift_bit-lt r p) (shift_bit-lt s q) h)

update_byte-lt : (r b : ℕ) → r < 2 ^ 32 → b < 256 → update_byte r b < 2 ^ 32
update_byte-lt r b p q =
    rw (update_byte-register r b q)
      (shift_bits-lt 8 (bit_xor r b) (bit_xor-lt 32 r b p (omega arith)))

update_byte_injective :
    (r s a b : ℕ)
    → r < 2 ^ 32
    → s < 2 ^ 32
    → a < 256
    → b < 256
    → update_byte r a ≡ update_byte s b
    → bit_xor r a ≡ bit_xor s b
update_byte_injective r s a b p q ha hb h =
    shift_bits_injective 8 (bit_xor r a) (bit_xor s b) (bit_xor-lt 32 r a p (omega arith))
      (bit_xor-lt 32 s b q (omega arith))
      (sym (update_byte-register r a ha) ∙ h ∙ update_byte-register s b hb)

update_crc-append :
    (r : ℕ) (xs ys : List ℕ) → update_crc r (xs ++ ys) ≡ update_crc (update_crc r xs) ys
unfolding update_crc
update_crc-append r [] ys = refl
update_crc-append r (x ∷ xs) ys = update_crc-append (update_byte r x) xs ys

update_crc-lt : (r : ℕ) (xs : List ℕ) → r < 2 ^ 32 → Bytes xs → update_crc r xs < 2 ^ 32
unfolding update_crc
update_crc-lt r [] p h = p
update_crc-lt r (x ∷ xs) p h = update_crc-lt (update_byte r x) xs (update_byte-lt r x p h.0) h.1

update_crc_injective :
    (r s : ℕ) (xs : List ℕ)
    → r < 2 ^ 32
    → s < 2 ^ 32
    → Bytes xs
    → update_crc r xs ≡ update_crc s xs
    → r ≡ s
unfolding update_crc
update_crc_injective r s [] p q h e = e
update_crc_injective r s (x ∷ xs) p q h e = xor-cancel r s x (
    update_byte_injective r s x x p q h.0 h.0 (
      update_crc_injective (update_byte r x) (update_byte s x) xs (update_byte-lt r x p h.0)
        (update_byte-lt s x q h.0) h.1 e))

-- Calls of `update` on consecutive pieces leave what one call on the whole leaves.
pub update-append : (c : Crc32) (xs ys : List ℕ) → update c (xs ++ ys) ≡ update (update c xs) ys
unfolding update
update-append c xs ys = ground (arith, update_crc-append c.crc xs ys)

update_crc_one_byte :
    (r : ℕ) (before after : List ℕ) (a b : ℕ)
    → r < 2 ^ 32
    → Bytes before
    → Bytes after
    → a < 256
    → b < 256
    → update_crc r (before ++ (a ∷ after)) ≡ update_crc r (before ++ (b ∷ after))
    → a ≡ b
unfolding update_crc
update_crc_one_byte r [] after a b p hb ha la lb e = xor-cancel a b r (
    bit_xor_comm a r
    ∙ update_byte_injective r r a b p p la lb (
        update_crc_injective (update_byte r a) (update_byte r b) after (update_byte-lt r a p la)
          (update_byte-lt r b p lb) ha e)
    ∙ bit_xor_comm r b)
update_crc_one_byte r (x ∷ before) after a b p hb ha la lb e =
    update_crc_one_byte (update_byte r x) before after a b (update_byte-lt r x p hb.0) hb.1 ha la lb
      e

-- Two messages that differ in one byte have different checksums.
value-one_byte :
    (before after : List ℕ) (a b : ℕ)
    → Bytes before
    → Bytes after
    → a < 256
    → b < 256
    → a ≢ b
    → value (update reset (before ++ (a ∷ after))) ≢ value (update reset (before ++ (b ∷ after)))
unfolding update value reset
value-one_byte before after a b hb ha la lb ne e = ne (
    update_crc_one_byte 0xffff_ffff before after a b (omega arith) hb ha la lb (
      omega (
        arith,
        e,
        update_crc-lt 0xffff_ffff (before ++ (a ∷ after)) (omega arith)
            (All-append _ before _ hb (la, ha)),
        update_crc-lt 0xffff_ffff (before ++ (b ∷ after)) (omega arith)
            (All-append _ before _ hb (lb, ha)),
      )))
