-- ===== src/Bits/Step.antt =====
-- The native bit operations as a recursion on the lowest digit: the fuel of `digits` is dropped.
use Prim.Native.Nat.{min, max, differ, digits, bitwise, bit_and-bitwise, bit_or-bitwise}
use Prim.Native.Nat.{bit_and, bit_or, bit_xor, bit_xor-bitwise}
use deprecated_tdk.Prelude.{ℕ, zero, suc, ◌+◌, ◌*◌, ◌/◌, ◌%◌, ◌≤◌, ◌<◌, ◌≡◌, refl, arith}

module _ (rest : ℕ → ℕ) (f : ℕ → ℕ → ℕ)
    (stop : (b : ℕ) → rest b ≡ rest (b / 2) * 2 + f 0 (b % 2)) where
  -- Two amounts of fuel that both reach the end of `a` give the same number.
  digits-agree : (a b n m : ℕ) → a ≤ n → a ≤ m → digits rest f n a b ≡ digits rest f m a b
  digits-agree zero b zero zero p q = refl
  digits-agree zero b zero (suc m) p q = refl
  digits-agree zero b (suc n) zero p q = refl
  digits-agree zero b (suc n) (suc m) p q = refl
  digits-agree (suc a) b zero m p q = absurd (omega arith)
  digits-agree (suc a) b (suc n) zero p q = absurd (omega arith)
  digits-agree (suc a) b (suc n) (suc m) p q =
      rw (digits-agree (suc a / 2) (b / 2) n m (omega arith) (omega arith))

  bitwise_step :
      (a b : ℕ) → bitwise rest f a b ≡ bitwise rest f (a / 2) (b / 2) * 2 + f (a % 2) (b % 2)
  bitwise_step zero b = stop b
  bitwise_step (suc a) b =
      rw (digits-agree (suc a / 2) (b / 2) a (suc a / 2) (omega arith) (omega arith))

pub bit_or_step : (m n : ℕ) → bit_or m n ≡ bit_or (m / 2) (n / 2) * 2 + max (m % 2) (n % 2)
bit_or_step m n = simp bit_or-bitwise (bitwise_step (λ y. y) max (λ y. omega arith) m n)

pub bit_and_step : (m n : ℕ) → bit_and m n ≡ bit_and (m / 2) (n / 2) * 2 + min (m % 2) (n % 2)
bit_and_step m n = simp bit_and-bitwise (bitwise_step (λ y. 0) min (λ y. omega arith) m n)

differ-add : (x y : ℕ) → x < 2 → y < 2 → differ x y ≡ (x + y) % 2
differ-add zero y p q = omega arith
differ-add (suc x) zero p q = omega arith
differ-add (suc zero) (suc zero) p q = refl
differ-add (suc zero) (suc (suc y)) p q = absurd (omega arith)
differ-add (suc (suc x)) (suc y) p q = absurd (omega arith)

pub bit_xor_step : (m n : ℕ) → bit_xor m n ≡ bit_xor (m / 2) (n / 2) * 2 + (m % 2 + n % 2) % 2
bit_xor_step m n =
    rw (← differ-add (m % 2) (n % 2) (omega arith) (omega arith))
      (simp bit_xor-bitwise (bitwise_step (λ y. y) differ (λ y. omega arith) m n))
