-- ===== src/Util/ListQueue/Laws.antt =====
-- Each operation does to the nodes in memory what it says of the list.
use mathlib.Core.Path.{subst}
use mathlib.Core.List.{append-nil}
use deprecated_tdk.Prelude.{
  ℕ, zero, suc, ◌+◌, ◌<◌, ◌≡◌, ◌≢◌, ◌∙◌, refl, sym, ap, true, false, none, some, List, [], ◌∷◌,
  ◌++◌, length, ◌==◌, arith,
}
use deprecated_tdk.Util.ListQueue.{
  Next, Queue, set_next, add_front, add_tail, pop_front, add_list, is_empty, is_null, same_pointer,
  count, count_from,
}
use deprecated_tdk.Util.ListQueue.Links.{
  first_of, end_of, end_of-append, Fresh, Linked, Apart, Stands, Linked-set_next, Linked-join,
  Fresh-end,
}

-- A node that is in no list, with no node behind it, goes to the end.
pub add_tail_lem :
    (node : ℕ) (next : Next) (q : Queue) (xs : List ℕ)
    → Stands next q xs
    → Apart xs (node ∷ [])
    → next node ≡ none
    → let (next', q') = add_tail node next q in Stands next' q' (xs ++ (node ∷ []))
unfolding add_tail
add_tail_lem node next q [] s a e = rw s.head (record { head = refl; tail = refl; linked = e })
add_tail_lem node next q (x ∷ xs) s a e =
    rw (s.head, s.tail)
      (record {
        head = refl;
        tail = ap some (sym (end_of-append x xs node []));
        linked = Linked-join next x xs node [] none a s.linked e;
      })

-- A node that is in no list goes to the front.
pub add_front_lem :
    (node : ℕ) (next : Next) (q : Queue) (xs : List ℕ)
    → Stands next q xs
    → Fresh node xs
    → next node ≡ none
    → let (next', q') = add_front node next q in Stands next' q' (node ∷ xs)
unfolding add_front
add_front_lem node next q [] s f e = rw s.head (record { head = refl; tail = refl; linked = e })
add_front_lem node next q (x ∷ xs) s f e = rw s.head (record {
  head = refl;
  tail = s.tail;
  linked = (ground arith, f, Linked-set_next next node (some x) (x ∷ xs) none f s.linked);
})

-- The front node leaves the list, and has no node behind it then.
pub pop_front_lem :
    (next : Next) (q : Queue) (x : ℕ) (xs : List ℕ)
    → Stands next q (x ∷ xs)
    → let (next', q') = pop_front next q in Stands next' q' xs × (next' x ≡ none)
unfolding pop_front same_pointer
pop_front_lem next q x [] s =
    let same : (x == x) ≡ true = ground arith in
    rw (s.head, s.tail, same) (record { head = refl; tail = refl; linked = tt }, s.linked)
pop_front_lem next q x (y ∷ xs) s =
    let apart : x ≢ end_of y xs = Fresh-end x y xs s.linked.1 in
    let other : (x == end_of y xs) ≡ false = ground (arith, apart) in
    rw (s.head, s.tail, other)
      (
        record {
          head = s.linked.0;
          tail = refl;
          linked = Linked-set_next next x none (y ∷ xs) none s.linked.1 s.linked.2;
        },
        ground arith,
      )

-- What `add_list` does in its cases.
module _ (next : Next) (q list : Queue) where
  add_list-none : list.head ≡ none → add_list next q list ≡ (next, q, list)
  unfolding add_list
  add_list-none e = simp (add_list, e) refl

  add_list-first :
      (y : ℕ)
      → list.head ≡ some y
      → q.head ≡ none
      → add_list next q list
        ≡ (next, record { head = some y; tail = list.tail }, record { head = none; tail = none })
  unfolding add_list add_tail
  add_list-first y e f = simp (add_list, e, add_tail, f) refl

  add_list-both :
      (x t y : ℕ)
      → list.head ≡ some y
      → q.head ≡ some x
      → q.tail ≡ some t
      → add_list next q list ≡ (
        set_next next t (some y),
        record { head = q.head; tail = list.tail },
        record { head = none; tail = none },
      )
  unfolding add_list add_tail
  add_list-both x t y e f g = simp (add_list, e, add_tail, f, g) refl

-- What `add_list_lem` says of the result.
abbrev IsJoined : Next → Queue → List ℕ → Next × Queue × Queue → Type 0
IsJoined before first xs (next, q, list) =
    Stands next q xs × Stands next list [] × ((p : ℕ) → first.tail ≢ some p → next p ≡ before p)

-- A list is put behind another one and is empty then. Of all nodes only the last one of the first
-- list may get another pointer.
pub add_list_lem :
    (next : Next) (q list : Queue) (xs ys : List ℕ)
    → Stands next q xs
    → Stands next list ys
    → Apart xs ys
    → let (next', q', list') = add_list next q list in
      Stands next' q' (xs ++ ys)
      × Stands next' list' []
      × ((p : ℕ) → q.tail ≢ some p → next' p ≡ next p)
add_list_lem next q list xs [] s t a =
    subst (IsJoined next q (xs ++ [])) (sym (add_list-none next q list t.head))
      (subst (Stands next q) (sym (append-nil xs)) s, t, λ p other. refl)
add_list_lem next q list [] (y ∷ ys) s t a =
    subst (IsJoined next q (y ∷ ys)) (sym (add_list-first next q list y t.head s.head)) (
      record { head = refl; tail = t.tail; linked = t.linked },
      record { head = refl; tail = refl; linked = tt },
      λ p other. refl,
    )
add_list_lem next q list (x ∷ xs) (y ∷ ys) s t a =
    subst (IsJoined next q ((x ∷ xs) ++ (y ∷ ys)))
      (sym (add_list-both next q list x (end_of x xs) y t.head s.head s.tail))
      (
        record {
          head = s.head;
          tail = t.tail ∙ ap some (sym (end_of-append x xs y ys));
          linked = Linked-join next x xs y ys none a s.linked t.linked;
        },
        record { head = refl; tail = refl; linked = tt },
        λ p other. ground (arith, λ (e : end_of x xs ≡ p). other (s.tail ∙ ap some e)),
      )

count_from_lem :
    (next : Next) (fuel : ℕ) (xs : List ℕ)
    → Linked next xs none
    → length xs < fuel
    → count_from next fuel (first_of xs) ≡ length xs
unfolding count_from
count_from_lem next zero xs l enough = absurd (omega arith)
count_from_lem next (suc fuel) [] l enough = refl
count_from_lem next (suc zero) (x ∷ xs) l enough = absurd (omega arith)
count_from_lem next (suc (suc fuel)) (x ∷ []) l enough = rw l refl
count_from_lem next (suc (suc fuel)) (x ∷ y ∷ xs) l enough =
    ap (λ p. count_from next (suc fuel) p + 1) l.0
    ∙ omega (arith, count_from_lem next (suc fuel) (y ∷ xs) l.2 (omega arith))

is_null_lem : (xs : List ℕ) → is_null (first_of xs) ≡ (length xs == 0)
unfolding is_null
is_null_lem [] = refl
is_null_lem (x ∷ xs) = ground arith

pub is_empty_lem :
    (next : Next) (q : Queue) (xs : List ℕ) → Stands next q xs → is_empty q ≡ (length xs == 0)
unfolding is_empty
is_empty_lem next q xs s = ap is_null s.head ∙ is_null_lem xs

-- `count` is the length, and `is_empty` says whether it is 0.
pub count_lem :
    (next : Next) (fuel : ℕ) (q : Queue) (xs : List ℕ)
    → Stands next q xs
    → length xs < fuel
    → (count next fuel q ≡ length xs) × (is_empty q ≡ (length xs == 0))
unfolding count
count_lem next fuel q xs s enough = (
  ap (count_from next fuel) s.head ∙ count_from_lem next fuel xs s.linked enough,
  is_empty_lem next q xs s,
)
