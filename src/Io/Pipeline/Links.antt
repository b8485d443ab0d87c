-- ===== src/Io/Pipeline/Links.antt =====
-- The filters of a pipeline in memory, and the list that they stand for.
use deprecated_tdk.Prelude.{
  ℕ, ◌≡◌, ◌≢◌, ◌∙◌, refl, sym, Option, none, some, List, [], ◌∷◌, ◌++◌, All, arith,
}
use deprecated_tdk.Io.Result.{returned}
use deprecated_tdk.Io.Pipeline.{Name, Filter, Memory, put, load, change, Pipeline}

pub load_lem : (m : Memory) (f : ℕ) (v : Filter) → m f ≡ some v → load m f ≡ returned v
unfolding load
load_lem m f v e = rw (load, e) refl

pub change_lem :
    (f : ℕ) (to : Filter → Filter) (m : Memory) (v : Filter)
    → m f ≡ some v
    → change f to m ≡ returned (put f (some (to v)) m)
unfolding change
change_lem f to m v e = rw (load_lem m f v e) refl

pub put_self : (f : ℕ) (v : Option Filter) (m : Memory) → put f v m f ≡ v
put_self f v m = ground arith

pub put-other : (f g : ℕ) (v : Option Filter) (m : Memory) → f ≢ g → put f v m g ≡ m g
put-other f g v m other = ground (arith, other)

-- A filter and its name.
abbrev pub Entry : Type 0
Entry = ℕ × Name

abbrev pub first_of : List Entry → Option ℕ
first_of [] = none
first_of (x ∷ xs) = some x.0

abbrev pub end_of : Entry → List Entry → ℕ
end_of x [] = x.0
end_of x (y ∷ xs) = end_of y xs

abbrev pub last_of : List Entry → Option ℕ
last_of [] = none
last_of (x ∷ xs) = some (end_of x xs)

-- `f` is none of the filters.
abbrev pub Fresh : ℕ → List Entry → Type 0
Fresh f xs = All (λ y. f ≢ y.0) xs

-- Each filter has its channel, its name and both its neighbours; no filter comes twice.
abbrev pub Linked : ℕ → Memory → Option ℕ → List Entry → Type 0
Linked c m prev [] = Unit {0}
Linked c m prev (x ∷ xs) =
    (m x.0
      ≡ some (record { channel = some c; in_bound = first_of xs; out_bound = prev; name = x.1 }))
    × Fresh x.0 xs
    × Linked c m (some x.0) xs

pub record Stands (m : Memory) (p : Pipeline) (xs : List Entry) : Type 0 where
  pub head : p.chain.head ≡ first_of xs
  pub tail : p.chain.tail ≡ last_of xs
  pub linked : Linked p.channel m none xs

-- What is at other addresses does not matter.
pub Linked-agree :
    (c : ℕ) (m m' : Memory) (prev : Option ℕ) (xs : List Entry)
    → All (λ x. m' x.0 ≡ m x.0) xs
    → Linked c m prev xs
    → Linked c m' prev xs
Linked-agree c m m' prev [] same l = tt
Linked-agree c m m' prev (x ∷ xs) same l =
    (same.0 ∙ l.0, l.1, Linked-agree c m m' (some x.0) xs same.1 l.2)

pub Fresh-put :
    (f : ℕ) (v : Option Filter) (m : Memory) (xs : List Entry)
    → Fresh f xs
    → All (λ x. put f v m x.0 ≡ m x.0) xs
Fresh-put f v m [] fresh = tt
Fresh-put f v m (x ∷ xs) fresh = (ground (arith, fresh.0), Fresh-put f v m xs fresh.1)

pub Fresh-end : (f : ℕ) (x : Entry) (xs : List Entry) → Fresh f (x ∷ xs) → f ≢ end_of x xs
Fresh-end f x [] fresh = fresh.0
Fresh-end f x (y ∷ xs) fresh = Fresh-end f y xs fresh.1

Fresh-snoc : (g : ℕ) (xs : List Entry) (x : Entry) → Fresh g xs → g ≢ x.0 → Fresh g (xs ++ (x ∷ []))
Fresh-snoc g [] x fresh other = (other, tt)
Fresh-snoc g (y ∷ xs) x fresh other = (fresh.0, Fresh-snoc g xs x fresh.1 other)

-- The last filter, by the one in front of it.
abbrev pub before : Option ℕ → Entry → List Entry → Option ℕ
before prev x [] = prev
before prev x (y ∷ xs) = before (some x.0) y xs

abbrev pub name_of : Entry → List Entry → Name
name_of x [] = x.1
name_of x (y ∷ xs) = name_of y xs

abbrev pub last : ℕ → Option ℕ → Entry → List Entry → Filter
last c prev x xs = record {
  channel = some c;
  in_bound = none;
  out_bound = before prev x xs;
  name = name_of x xs;
}

pub Linked-end :
    (c : ℕ) (m : Memory) (prev : Option ℕ) (x : Entry) (xs : List Entry)
    → Linked c m prev (x ∷ xs)
    → m (end_of x xs) ≡ some (last c prev x xs)
Linked-end c m prev x [] l = l.0
Linked-end c m prev x (y ∷ xs) l = Linked-end c m (some x.0) y xs l.2

-- Both pointers are set: the filter `f` stands behind the last one.
pub Linked-snoc :
    (c : ℕ) (m : Memory) (prev : Option ℕ) (x : Entry) (xs : List Entry) (f : ℕ) (name : Name)
    → Fresh f (x ∷ xs)
    → Linked c m prev (x ∷ xs)
    → let e = end_of x xs in
      let v : Filter = record (last c prev x xs) { in_bound = some f } in
      let w : Filter = record {
        channel = some c;
        in_bound = none;
        out_bound = some e;
        name = name;
      } in
      Linked c (put f (some w) (put e (some v) m)) prev ((x ∷ xs) ++ ((f, name) ∷ []))
Linked-snoc c m prev x [] f name fresh l =
    (ground (arith, fresh.0), ((λ e. fresh.0 (sym e)), tt), (ground arith, tt, tt))
Linked-snoc c m prev x (y ∷ xs) f name fresh l =
    let other : x.0 ≢ end_of y xs = Fresh-end x.0 y xs l.1 in
    (
      ground (arith, fresh.0, other, l.0),
      Fresh-snoc x.0 (y ∷ xs) (f, name) l.1 (λ e. fresh.0 (sym e)),
      Linked-snoc c m (some x.0) y xs f name fresh.1 l.2,
    )

-- A filter that is in no pipeline.
abbrev pub single : Option ℕ → Name → Filter
single c name = record { channel = c; in_bound = none; out_bound = none; name = name }
