-- ===== src/Prelude/Bounded.antt =====
-- Bytes, and checking a test at every number below a bound by evaluation.
use Prim.Native.Nat.{ℕ, zero, suc, ◌<◌}
use mathlib.Core.Path.{◌≡◌}
use mathlib.Core.Bool.{Bool, true, ◌&&◌}
use mathlib.Core.List.{List, [], ◌∷◌, ◌++◌}
use native.Mathlib.Omega.{arith}

abbrev pub All {ℓ κ} : {A : Type ℓ} → (A → Type κ) → List A → Type κ
All P [] = Unit
All P (x ∷ xs) = P x × All P xs

-- Every element is an `unsigned char`.
abbrev pub Bytes : List ℕ → Type 0
Bytes = All (λ b. b < 256)

pub All-append {ℓ κ} :
    {A : Type ℓ} (P : A → Type κ) (xs ys : List A) → All P xs → All P ys → All P (xs ++ ys)
All-append P [] ys p q = q
All-append P (x ∷ xs) ys p q = (p.0, All-append P xs ys p.1 q)

unfoldable pub all_below : ℕ → (ℕ → Bool) → Bool
all_below zero test = true
all_below (suc n) test = test n && all_below n test

pub all_below_sound :
    (n : ℕ) (test : ℕ → Bool) (x : ℕ) → all_below n test ≡ true → x < n → test x ≡ true
unfolding all_below
all_below_sound zero test x h lt = absurd (omega arith)
all_below_sound (suc n) test x h lt = ground (arith, all_below_sound n test x)
