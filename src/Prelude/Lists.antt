-- ===== src/Prelude/Lists.antt =====
-- Lists measured and indexed by native numbers, under the library's names.
use Prim.Native.Nat.{ℕ, zero, suc, ◌+◌, ◌-◌, ◌≤◌, ◌<◌, min}
use mathlib.Core.Path.{◌≡◌, refl, ap}
use mathlib.Core.Logic.{◌≢◌}
use mathlib.Core.List.{List, [], ◌∷◌, ◌++◌, map}
use mathlib.Core.Option.{Option, none, some}
use native.Mathlib.Omega.{arith}

module _ {ℓ} {A : Type ℓ} where
  abbrev pub length : List A → ℕ
  length [] = 0
  length (x ∷ xs) = suc (length xs)

  abbrev pub get_elem? : List A → ℕ → Option A
  get_elem? [] i = none
  get_elem? (x ∷ xs) zero = some x
  get_elem? (x ∷ xs) (suc i) = get_elem? xs i

  -- A write out of bounds changes nothing.
  abbrev pub set : List A → ℕ → A → List A
  set [] i v = []
  set (x ∷ xs) zero v = v ∷ xs
  set (x ∷ xs) (suc i) v = x ∷ set xs i v

  pub length-append : (xs ys : List A) → length (xs ++ ys) ≡ length xs + length ys
  length-append [] ys = omega arith
  length-append (x ∷ xs) ys = omega (arith, length-append xs ys)

module _ {ℓ} {A : Type ℓ} where
  pub length-set : (xs : List A) (i : ℕ) (v : A) → length (set xs i v) ≡ length xs
  length-set [] i v = refl
  length-set (x ∷ xs) zero v = refl
  length-set (x ∷ xs) (suc i) v = ap suc (length-set xs i v)

  pub get_elem?-set_self :
      (xs : List A) (i : ℕ) (v : A) → i < length xs → get_elem? (set xs i v) i ≡ some v
  get_elem?-set_self [] i v h = elim h [ ]
  get_elem?-set_self (x ∷ xs) zero v h = refl
  get_elem?-set_self (x ∷ xs) (suc i) v h = get_elem?-set_self xs i v (omega arith)

  pub get_elem?-set_ne :
      (xs : List A) {i j : ℕ} (v : A) → i ≢ j → get_elem? (set xs i v) j ≡ get_elem? xs j
  get_elem?-set_ne [] v h = refl
  get_elem?-set_ne (x ∷ xs) {i = zero} {j = zero} v h = absurd (h refl)
  get_elem?-set_ne (x ∷ xs) {i = zero} {j = suc j} v h = refl
  get_elem?-set_ne (x ∷ xs) {i = suc i} {j = zero} v h = refl
  get_elem?-set_ne (x ∷ xs) {i = suc i} {j = suc j} v h = get_elem?-set_ne xs v (λ e. h (ap suc e))

module _ {ℓ} {A : Type ℓ} where
  abbrev pub get_or : List A → ℕ → A → A
  get_or [] i d = d
  get_or (x ∷ xs) zero d = x
  get_or (x ∷ xs) (suc i) d = get_or xs i d

  abbrev pub take : ℕ → List A → List A
  take zero xs = []
  take (suc n) [] = []
  take (suc n) (x ∷ xs) = x ∷ take n xs

  abbrev pub drop : ℕ → List A → List A
  drop zero xs = xs
  drop (suc n) [] = []
  drop (suc n) (x ∷ xs) = drop n xs

  abbrev pub replicate : ℕ → A → List A
  replicate zero a = []
  replicate (suc n) a = a ∷ replicate n a

  pub take-append-drop : (n : ℕ) (xs : List A) → take n xs ++ drop n xs ≡ xs
  take-append-drop zero xs = refl
  take-append-drop (suc n) [] = refl
  take-append-drop (suc n) (x ∷ xs) = rw (take-append-drop n xs)

  pub length-take : (n : ℕ) (xs : List A) → length (take n xs) ≡ min n (length xs)
  length-take zero xs = omega arith
  length-take (suc n) [] = omega arith
  length-take (suc n) (x ∷ xs) = omega (arith, length-take n xs)

  pub length-drop : (n : ℕ) (xs : List A) → length (drop n xs) ≡ length xs - n
  length-drop zero xs = omega arith
  length-drop (suc n) [] = omega arith
  length-drop (suc n) (x ∷ xs) = omega (arith, length-drop n xs)

  pub length-replicate : (n : ℕ) (a : A) → length (replicate n a) ≡ n
  length-replicate zero a = refl
  length-replicate (suc n) a = ap suc (length-replicate n a)

  pub length-map {κ} : {B : Type κ} (xs : List A) (f : A → B) → length (map f xs) ≡ length xs
  length-map [] f = refl
  length-map (x ∷ xs) f = ap suc (length-map xs f)

module _ {ℓ} {A : Type ℓ} where
  -- A write just behind a prefix.
  pub set-append : (xs ys : List A) (y v : A) → set (xs ++ (y ∷ ys)) (length xs) v ≡ xs ++ (v ∷ ys)
  set-append [] ys y v = refl
  set-append (x ∷ xs) ys y v = ap (λ t. x ∷ t) (set-append xs ys y v)

module _ {ℓ} {A : Type ℓ} where
  pub take-append_le : (n : ℕ) (xs ys : List A) → n ≤ length xs → take n (xs ++ ys) ≡ take n xs
  take-append_le zero xs ys h = refl
  take-append_le (suc n) [] ys h = absurd (omega arith)
  take-append_le (suc n) (x ∷ xs) ys h = ap (λ t. x ∷ t) (take-append_le n xs ys (omega arith))

  pub take-take : (n m : ℕ) (xs : List A) → n ≤ m → take n (take m xs) ≡ take n xs
  take-take zero m xs h = refl
  take-take (suc n) zero xs h = absurd (omega arith)
  take-take (suc n) (suc m) [] h = refl
  take-take (suc n) (suc m) (x ∷ xs) h = ap (λ t. x ∷ t) (take-take n m xs (omega arith))

  pub take-take-min : (n m : ℕ) (xs : List A) → take n (take m xs) ≡ take (min m n) xs
  take-take-min zero m xs = let no : min m 0 ≡ 0 = omega arith in rw no refl
  take-take-min (suc n) zero xs = let no : min 0 (suc n) ≡ 0 = omega arith in rw no refl
  take-take-min (suc n) (suc m) [] =
      let both : min (suc m) (suc n) ≡ suc (min m n) = omega arith in rw both refl
  take-take-min (suc n) (suc m) (x ∷ xs) =
      let both : min (suc m) (suc n) ≡ suc (min m n) = omega arith in
      rw both (ap (λ t. x ∷ t) (take-take-min n m xs))

module _ {ℓ} {A : Type ℓ} where
  pub take-append_add : (xs ys : List A) (n : ℕ) → take (length xs + n) (xs ++ ys) ≡ xs ++ take n ys
  take-append_add [] ys n = ap (λ k. take k ys) (omega arith)
  take-append_add (x ∷ xs) ys n =
      let step : suc (length xs) + n ≡ suc (length xs + n) = omega arith in
      rw step (ap (λ t. x ∷ t) (take-append_add xs ys n))

  pub take-length : (xs ys : List A) → take (length xs) (xs ++ ys) ≡ xs
  take-length [] ys = refl
  take-length (x ∷ xs) ys = ap (λ t. x ∷ t) (take-length xs ys)

  pub take_all : (n : ℕ) (xs : List A) → length xs ≤ n → take n xs ≡ xs
  take_all zero [] h = refl
  take_all zero (x ∷ xs) h = absurd (omega arith)
  take_all (suc n) [] h = refl
  take_all (suc n) (x ∷ xs) h = ap (λ t. x ∷ t) (take_all n xs (omega arith))

  pub drop-append_le :
      (n : ℕ) (xs ys : List A) → n ≤ length xs → drop n (xs ++ ys) ≡ drop n xs ++ ys
  drop-append_le zero xs ys h = refl
  drop-append_le (suc n) [] ys h = absurd (omega arith)
  drop-append_le (suc n) (x ∷ xs) ys h = drop-append_le n xs ys (omega arith)

  pub drop-length : (xs ys : List A) → drop (length xs) (xs ++ ys) ≡ ys
  drop-length [] ys = refl
  drop-length (x ∷ xs) ys = drop-length xs ys

  pub take-nil : (n : ℕ) → take {A = A} n [] ≡ []
  take-nil zero = refl
  take-nil (suc n) = refl

  pub drop-nil : (n : ℕ) → drop {A = A} n [] ≡ []
  drop-nil zero = refl
  drop-nil (suc n) = refl

  pub drop-drop : (n m : ℕ) (xs : List A) → drop n (drop m xs) ≡ drop (m + n) xs
  drop-drop n zero xs = ap (λ k. drop k xs) (omega arith)
  drop-drop n (suc m) [] = let step : suc m + n ≡ suc (m + n) = omega arith in rw step (drop-nil n)
  drop-drop n (suc m) (x ∷ xs) =
      let step : suc m + n ≡ suc (m + n) = omega arith in rw step (drop-drop n m xs)

  -- A window can be cut at either end first.
  pub drop-take : (r n : ℕ) (xs : List A) → drop r (take (r + n) xs) ≡ take n (drop r xs)
  drop-take zero n xs = ap (λ k. take k xs) (omega arith)
  drop-take (suc r) n [] = let step : suc r + n ≡ suc (r + n) = omega arith in rw (step, take-nil n)
  drop-take (suc r) n (x ∷ xs) =
      let step : suc r + n ≡ suc (r + n) = omega arith in rw step (drop-take r n xs)

  -- Dropping as many as were taken.
  pub drop-length-take : (n : ℕ) (xs : List A) → drop (length (take n xs)) xs ≡ drop n xs
  drop-length-take zero xs = refl
  drop-length-take (suc n) [] = refl
  drop-length-take (suc n) (x ∷ xs) = drop-length-take n xs

  pub empty_of_length : (xs : List A) → length xs ≡ 0 → xs ≡ []
  empty_of_length [] h = refl
  empty_of_length (x ∷ xs) h = absurd (omega arith)

  pub take-replicate : (k n : ℕ) (v : A) → k ≤ n → take k (replicate n v) ≡ replicate k v
  take-replicate zero n v h = refl
  take-replicate (suc k) zero v h = absurd (omega arith)
  take-replicate (suc k) (suc n) v h = ap (λ t. v ∷ t) (take-replicate k n v (omega arith))
