-- ===== src/Bits/Xor.antt =====
-- Exclusive or: the laws of a group, and how it meets shifts, masks and bounds.
use Prim.Native.Nat.{bit_xor, bit_xor-bitwise}
use native.Mathlib.Nat.{pow-suc}
use deprecated_tdk.Prelude.{ℕ, zero, suc, ◌+◌, ◌*◌, ◌/◌, ◌%◌, ◌^◌, ◌≤◌, ◌<◌, ◌≡◌, refl, arith}
use deprecated_tdk.Bits.Step.{bit_xor_step}
use deprecated_tdk.Bits.Fields.{double_pow}

pub bit_xor-div_two : (a b : ℕ) → bit_xor a b / 2 ≡ bit_xor (a / 2) (b / 2)
bit_xor-div_two a b = omega (arith, bit_xor_step a b)

pub bit_xor-mod_two : (a b : ℕ) → bit_xor a b % 2 ≡ (a % 2 + b % 2) % 2
bit_xor-mod_two a b = omega (arith, bit_xor_step a b)

pub zero-bit_xor : (b : ℕ) → bit_xor 0 b ≡ b
zero-bit_xor b = bit_xor-bitwise 0 b

comm_fuel : (n a b : ℕ) → a + b ≤ n → bit_xor a b ≡ bit_xor b a
comm_fuel n zero zero h = refl
comm_fuel zero (suc a) b h = absurd (omega arith)
comm_fuel zero zero (suc b) h = absurd (omega arith)
comm_fuel (suc n) (suc a) b h = omega (
  arith,
  bit_xor_step (suc a) b,
  bit_xor_step b (suc a),
  comm_fuel n (suc a / 2) (b / 2) (omega arith),
)
comm_fuel (suc n) zero (suc b) h =
    omega (
      arith,
      bit_xor_step 0 (suc b),
      bit_xor_step (suc b) 0,
      comm_fuel n 0 (suc b / 2) (omega arith),
    )

pub bit_xor_comm : (a b : ℕ) → bit_xor a b ≡ bit_xor b a
bit_xor_comm a b = comm_fuel (a + b) a b (omega arith)

pub bit_xor-zero : (a : ℕ) → bit_xor a 0 ≡ a
bit_xor-zero a = omega (arith, bit_xor_comm a 0, zero-bit_xor a)

self_fuel : (n a : ℕ) → a ≤ n → bit_xor a a ≡ 0
self_fuel n zero h = refl
self_fuel zero (suc a) h = absurd (omega arith)
self_fuel (suc n) (suc a) h =
    omega (arith, bit_xor_step (suc a) (suc a), self_fuel n (suc a / 2) (omega arith))

pub bit_xor_self : (a : ℕ) → bit_xor a a ≡ 0
bit_xor_self a = self_fuel a a (omega arith)

assoc_fuel : (n a b c : ℕ) → a + b + c ≤ n → bit_xor (bit_xor a b) c ≡ bit_xor a (bit_xor b c)
assoc_fuel n zero b c h = rw (zero-bit_xor b, zero-bit_xor (bit_xor b c))
assoc_fuel zero (suc a) b c h = absurd (omega arith)
assoc_fuel (suc n) (suc a) b c h = ground (
  arith,
  bit_xor_step (bit_xor (suc a) b) c,
  bit_xor_step (suc a) (bit_xor b c),
  bit_xor-div_two (suc a) b,
  bit_xor-div_two b c,
  bit_xor-mod_two (suc a) b,
  bit_xor-mod_two b c,
  assoc_fuel n (suc a / 2) (b / 2) (c / 2) (omega arith),
)

pub bit_xor_assoc : (a b c : ℕ) → bit_xor (bit_xor a b) c ≡ bit_xor a (bit_xor b c)
bit_xor_assoc a b c = assoc_fuel (a + b + c) a b c (omega arith)

-- Two pairs are regrouped crosswise.
pub bit_xor_cross :
    (a b c d : ℕ) → bit_xor (bit_xor a b) (bit_xor c d) ≡ bit_xor (bit_xor a c) (bit_xor b d)
bit_xor_cross a b c d = ground (
  arith,
  bit_xor_assoc a b (bit_xor c d),
  bit_xor_assoc b c d,
  bit_xor_comm b c,
  bit_xor_assoc c b d,
  bit_xor_assoc a c (bit_xor b d),
)

pub bit_xor-lt : (k a b : ℕ) → a < 2 ^ k → b < 2 ^ k → bit_xor a b < 2 ^ k
bit_xor-lt zero a b p q = ground (arith, bit_xor-zero 0)
bit_xor-lt (suc k) a b p q = omega (
  arith,
  pow-suc 2 k,
  bit_xor_step a b,
  bit_xor-lt k (a / 2) (b / 2) (omega (arith, pow-suc 2 k)) (omega (arith, pow-suc 2 k)),
)

-- A number of `k` bits beside one that is shifted left by `k`.
pub bit_xor-add : (k q r : ℕ) → r < 2 ^ k → bit_xor (q * 2 ^ k) r ≡ q * 2 ^ k + r
bit_xor-add zero q r h = ground (arith, bit_xor-zero q)
bit_xor-add (suc k) q r h = ground (
  arith,
  bit_xor_step (q * 2 ^ suc k) r,
  double_pow q k,
  bit_xor-add k q (r / 2) (omega (arith, pow-suc 2 k)),
)
