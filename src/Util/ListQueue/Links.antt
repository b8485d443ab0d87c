-- ===== src/Util/ListQueue/Links.antt =====
-- A queue in memory that stands for a list of nodes.
use deprecated_tdk.Prelude.{ℕ, ◌≡◌, ◌≢◌, refl, Option, none, some, List, [], ◌∷◌, ◌++◌, All, arith}
use deprecated_tdk.Util.ListQueue.{Next, Queue, set_next}

-- The first and the last node.
abbrev pub first_of : List ℕ → Option ℕ
first_of [] = none
first_of (x ∷ xs) = some x

abbrev pub end_of : ℕ → List ℕ → ℕ
end_of x [] = x
end_of x (y ∷ xs) = end_of y xs

abbrev pub last_of : List ℕ → Option ℕ
last_of [] = none
last_of (x ∷ xs) = some (end_of x xs)

-- `x` is none of the nodes.
abbrev pub Fresh : ℕ → List ℕ → Type 0
Fresh x xs = All (λ y. x ≢ y) xs

-- Each node points to the one behind it, the last one to `end`, and no node comes twice.
abbrev pub Linked : Next → List ℕ → Option ℕ → Type 0
Linked next [] end = Unit {0}
Linked next (x ∷ []) end = next x ≡ end
Linked next (x ∷ y ∷ xs) end = (next x ≡ some y) × Fresh x (y ∷ xs) × Linked next (y ∷ xs) end

pub record Stands (next : Next) (q : Queue) (xs : List ℕ) : Type 0 where
  pub head : q.head ≡ first_of xs
  pub tail : q.tail ≡ last_of xs
  pub linked : Linked next xs none

-- A pointer of no node of the list may change.
pub Linked-set_next :
    (next : Next) (p : ℕ) (n : Option ℕ) (xs : List ℕ) (end : Option ℕ)
    → Fresh p xs
    → Linked next xs end
    → Linked (set_next next p n) xs end
Linked-set_next next p n [] end f l = tt
Linked-set_next next p n (x ∷ []) end f l = ground (arith, f.0)
Linked-set_next next p n (x ∷ y ∷ xs) end f l =
    (ground (arith, f.0, l.0), l.1, Linked-set_next next p n (y ∷ xs) end f.1 l.2)

Fresh-append : (x : ℕ) (xs ys : List ℕ) → Fresh x xs → Fresh x ys → Fresh x (xs ++ ys)
Fresh-append x [] ys f g = g
Fresh-append x (y ∷ xs) ys f g = (f.0, Fresh-append x xs ys f.1 g)

-- No node of the one list is one of the other.
abbrev pub Apart : List ℕ → List ℕ → Type 0
Apart xs ys = All (λ x. Fresh x ys) xs

pub Fresh-end : (x y : ℕ) (xs : List ℕ) → Fresh x (y ∷ xs) → x ≢ end_of y xs
Fresh-end x y [] f = f.0
Fresh-end x y (z ∷ xs) f = Fresh-end x z xs f.1

-- The last node of a list is relinked to another list.
pub Linked-join :
    (next : Next) (x : ℕ) (xs : List ℕ) (y : ℕ) (ys : List ℕ) (end : Option ℕ)
    → Apart (x ∷ xs) (y ∷ ys)
    → Linked next (x ∷ xs) none
    → Linked next (y ∷ ys) end
    → Linked (set_next next (end_of x xs) (some y)) ((x ∷ xs) ++ (y ∷ ys)) end
Linked-join next x [] y ys end a l m =
    (ground arith, a.0, Linked-set_next next x (some y) (y ∷ ys) end a.0 m)
Linked-join next x (z ∷ xs) y ys end a l m =
    let other : x ≢ end_of z xs = Fresh-end x z xs l.1 in
    (
      ground (arith, other, l.0),
      Fresh-append x (z ∷ xs) (y ∷ ys) l.1 a.0,
      Linked-join next z xs y ys end a.1 l.2 m,
    )

pub end_of-append :
    (x : ℕ) (xs : List ℕ) (y : ℕ) (ys : List ℕ) → end_of x (xs ++ (y ∷ ys)) ≡ end_of y ys
end_of-append x [] y ys = refl
end_of-append x (z ∷ xs) y ys = end_of-append z xs y ys
