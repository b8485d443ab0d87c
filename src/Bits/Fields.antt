-- ===== src/Bits/Fields.antt =====
-- Disjoint fields under `|`, and masks of low ones under `&`.
use Prim.Native.Nat.{bit_and, bit_or, min}
use native.Mathlib.Nat.{pow-suc, one-le-pow}
use deprecated_tdk.Prelude.{
  ℕ, zero, suc, ◌+◌, ◌-◌, ◌*◌, ◌/◌, ◌%◌, ◌^◌, ◌≤◌, ◌<◌, ◌≡◌, ◌∙◌, refl, ap, arith,
}
use deprecated_tdk.Bits.Step.{bit_or_step, bit_and_step}

or-zero_fuel : (n a : ℕ) → a ≤ n → bit_or a 0 ≡ a
or-zero_fuel n zero h = refl
or-zero_fuel zero (suc a) h = absurd (omega arith)
or-zero_fuel (suc n) (suc a) h =
    omega (arith, bit_or_step (suc a) 0, or-zero_fuel n (suc a / 2) (omega arith))

and-zero_fuel : (n a : ℕ) → a ≤ n → bit_and a 0 ≡ 0
and-zero_fuel n zero h = refl
and-zero_fuel zero (suc a) h = absurd (omega arith)
and-zero_fuel (suc n) (suc a) h =
    omega (arith, bit_and_step (suc a) 0, and-zero_fuel n (suc a / 2) (omega arith))

pub double_pow : (q k : ℕ) → q * 2 ^ suc k ≡ 2 * (q * 2 ^ k)
double_pow q k = omega (arith, ap (λ (t : ℕ). q * t) (pow-suc 2 k))

-- A number of `k` bits is put below one that is shifted left by `k`.
pub bit_or-add : (k q r : ℕ) → r < 2 ^ k → bit_or (q * 2 ^ k) r ≡ q * 2 ^ k + r
bit_or-add zero q r h = ground (arith, or-zero_fuel q q (omega arith))
bit_or-add (suc k) q r h = ground (
  arith,
  bit_or_step (q * 2 ^ suc k) r,
  double_pow q k,
  bit_or-add k q (r / 2) (omega (arith, pow-suc 2 k)),
)

and-field : (k q r : ℕ) → r < 2 ^ k → bit_and (q * 2 ^ k + r) (2 ^ k - 1) ≡ r
and-field zero q r h = ground (arith, and-zero_fuel (q + r) (q * 1 + r) (omega arith))
and-field (suc k) q r h = ground (
  arith,
  bit_and_step (q * 2 ^ suc k + r) (2 ^ suc k - 1),
  double_pow q k,
  pow-suc 2 k,
  one-le-pow k 2,
  and-field k q (r / 2) (omega (arith, pow-suc 2 k)),
)

-- The mask of `k` ones leaves the remainder by `2 ^ k`.
pub bit_and-mask : (k a : ℕ) → bit_and a (2 ^ k - 1) ≡ a % 2 ^ k
bit_and-mask k a = ground (arith, one-le-pow k 2, and-field k (a / 2 ^ k) (a % 2 ^ k))

-- Both shifted left by one.
pub bit_and-double : (a b : ℕ) → bit_and (a * 2) (b * 2) ≡ bit_and a b * 2
bit_and-double a b =
    let half : a * 2 / 2 ≡ a = omega arith in
    let half' : b * 2 / 2 ≡ b = omega arith in
    bit_and_step (a * 2) (b * 2)
    ∙ ap (λ t. bit_and t (b * 2 / 2) * 2 + min (a * 2 % 2) (b * 2 % 2)) half
    ∙ ap (λ t. bit_and a t * 2 + min (a * 2 % 2) (b * 2 % 2)) half'
    ∙ omega arith
