-- ===== src/Crypto/Stream/Rules.antt =====
-- Fed in pieces or at once, the same blocks are transformed.
use mathlib.Core.List.{append_assoc}
use deprecated_tdk.Prelude.{
  ℕ, zero, suc, ◌+◌, ◌*◌, ◌≤◌, ◌<◌, ◌≡◌, ◌∙◌, refl, sym, ap, arith, List, [], ◌∷◌, ◌++◌, length,
  length-append, length-take, length-drop, take, drop, leb, true, false, Bool-cases, inl, inr,
  take-append-drop, take-append_le, drop-append_le, take_all, empty_of_length,
}
use deprecated_tdk.Crypto.Stream.{blocks}

module _ {S : Type 0} (transform : S → List ℕ → S) where
  -- The state after the first `n` blocks of the bytes.
  unfoldable pub run : ℕ → S → List ℕ → S
  run zero state bytes = state
  run (suc n) state bytes = run n (transform state (take 64 bytes)) (drop 64 bytes)

  pub run-append :
      (n k : ℕ) (state : S) (xs ys : List ℕ)
      → length xs ≡ n * 64
      → run (n + k) state (xs ++ ys) ≡ run k (run n state xs) ys
  unfolding run
  run-append zero k state [] ys h = let none_more : 0 + k ≡ k = omega arith in rw none_more refl
  run-append zero k state (x ∷ xs) ys h = absurd (omega arith)
  run-append (suc n) k state xs ys h =
      let step : suc n + k ≡ suc (n + k) = omega arith in
      ap (λ j. run j state (xs ++ ys)) step
      ∙ ap (λ t. run (n + k) (transform state t) (drop 64 (xs ++ ys)))
          (take-append_le 64 xs ys (omega arith))
      ∙ ap (run (n + k) (transform state (take 64 xs))) (drop-append_le 64 xs ys (omega arith))
      ∙ run-append n k (transform state (take 64 xs)) (drop 64 xs) ys
          (omega (arith, length-drop 64 xs))

  pub run_first :
      (n : ℕ) (state : S) (xs ys : List ℕ)
      → length xs ≡ 64
      → run (suc n) state (xs ++ ys) ≡ run n (transform state xs) ys
  unfolding run
  run_first n state xs ys h =
      ap (λ t. run n (transform state t) (drop 64 (xs ++ ys)))
        (take-append_le 64 xs ys (omega arith) ∙ take_all 64 xs (omega arith))
      ∙ ap (run n (transform state xs)) (
          drop-append_le 64 xs ys (omega arith)
          ∙ ap (λ t. t ++ ys) (empty_of_length (drop 64 xs) (omega (arith, length-drop 64 xs))))

  blocks_more :
      (fuel : ℕ) (state : S) (input : List ℕ)
      → leb 64 (length input) ≡ true
      → blocks transform (suc fuel) state input
        ≡ blocks transform fuel (transform state (take 64 input)) (drop 64 input)
  unfolding blocks
  blocks_more fuel state input e = rw (blocks, e) refl

  blocks_none :
      (fuel : ℕ) (state : S) (input : List ℕ)
      → leb 64 (length input) ≡ false
      → blocks transform (suc fuel) state input ≡ (state, input)
  unfolding blocks
  blocks_none fuel state input e = rw (blocks, e) refl

  -- The loop takes as many blocks as there are whole ones.
  pub blocks-run :
      (fuel : ℕ) (state : S) (input : List ℕ)
      → length input < 64 + fuel * 64
      → (n : ℕ) × (front rest : List ℕ) × (blocks transform fuel state input
          ≡ (run n state front, rest))
        × (input ≡ front ++ rest)
        × (length front ≡ n * 64)
        × (length rest < 64)
  unfolding run blocks
  blocks-run zero state input small = (0, [], input, refl, refl, refl, omega arith)
  blocks-run (suc fuel) state input small = elim (Bool-cases (leb 64 (length input))) [
    | inl enough ↦
        let large : 64 ≤ length input = ground arith in
        let (n, front, rest, loop, parts, whole, less) =
          blocks-run fuel (transform state (take 64 input)) (drop 64 input)
            (omega (arith, length-drop 64 input)) in
        (
          suc n,
          take 64 input ++ front,
          rest,
          blocks_more fuel state input enough
              ∙ loop
              ∙ ap (λ t. (t, rest))
                  (sym (
                    run_first n state (take 64 input) front
                      (omega (arith, large, length-take 64 input)))),
          sym (take-append-drop 64 input)
              ∙ ap (λ t. take 64 input ++ t) parts
              ∙ sym (append_assoc (take 64 input) front rest),
          omega (arith, whole, large, length-take 64 input, length-append (take 64 input) front),
          less,
        )
    | inr short ↦ (0, [], input, blocks_none fuel state input short, refl, refl, ground arith)
  ]
