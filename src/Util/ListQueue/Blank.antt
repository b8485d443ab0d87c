-- ===== src/Util/ListQueue/Blank.antt =====
-- Memory in which the nodes of one queue are the only ones that point to another.
use deprecated_tdk.Prelude.{
  ℕ, ◌≡◌, ◌≢◌, ◌∙◌, ap, true, false, none, List, [], ◌∷◌, ◌++◌, ◌==◌, ℕ_discrete, arith,
}
use deprecated_tdk.Util.ListQueue.{Next, Queue, add_tail, pop_front, same_pointer}
use deprecated_tdk.Util.ListQueue.Links.{end_of, Fresh, Stands, Fresh-end}

-- What is not among the nodes points to none.
abbrev pub Blank : Next → List ℕ → Type 0
Blank next xs = (p : ℕ) → Fresh p xs → next p ≡ none

Fresh-prefix : (p : ℕ) (xs ys : List ℕ) → Fresh p (xs ++ ys) → Fresh p xs
Fresh-prefix p [] ys f = tt
Fresh-prefix p (x ∷ xs) ys f = (f.0, Fresh-prefix p xs ys f.1)

-- Only the last node gets another pointer, and it stays in the list.
pub add_tail-Blank :
    (node : ℕ) (next : Next) (q : Queue) (xs : List ℕ)
    → Stands next q xs
    → Blank next xs
    → Blank (add_tail node next q).0 (xs ++ (node ∷ []))
unfolding add_tail
add_tail-Blank node next q [] s blank p f = rw s.head (blank p tt)
add_tail-Blank node next q (x ∷ xs) s blank p f =
    let old : Fresh p (x ∷ xs) = Fresh-prefix p (x ∷ xs) (node ∷ []) f in
    let other : p ≢ end_of x xs = Fresh-end p x xs old in
    rw (s.head, s.tail) (ground (arith, other, blank p old))

-- The node that leaves points to none.
pub pop_front-Blank :
    (next : Next) (q : Queue) (x : ℕ) (xs : List ℕ)
    → Stands next q (x ∷ xs)
    → Blank next (x ∷ xs)
    → Blank (pop_front next q).0 xs
unfolding pop_front same_pointer
pop_front-Blank next q x [] s blank p f =
    let same : (x == x) ≡ true = ground arith in
    rw (s.head, s.tail, same)
      (elim (ℕ_discrete p x) [ yes e ↦ ap next e ∙ s.linked | no other ↦ blank p (other, tt) ])
pop_front-Blank next q x (y ∷ xs) s blank p f =
    let other : (x == end_of y xs) ≡ false = ground (arith, Fresh-end x y xs s.linked.1) in
    rw (s.head, s.tail, other) (ground (arith, λ (away : p ≢ x). blank p (away, f)))
