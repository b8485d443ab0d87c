-- ===== src/Io/Pipeline/Walk.antt =====
-- The walks along a pipeline: `find`, and the destructor.
use deprecated_tdk.Prelude.{
  ℕ, zero, suc, ◌<◌, ◌≡◌, ◌≢◌, ◌∙◌, refl, sym, ap, Bool, true, false, Option, none, some, List, [],
  ◌∷◌, length, All, Bool-cases, inl, inr, ◌⊎◌, arith,
}
use deprecated_tdk.Io.Result.{Result, returned}
use deprecated_tdk.Io.Pipeline.{
  Name, same_name, Filter, Memory, put, Pipeline, delete_from, find_from, find,
}
use deprecated_tdk.Io.Pipeline.Links.{
  load_lem, put_self, put-other, Entry, first_of, Fresh, Linked, Stands, Linked-agree, Fresh-put,
}

pub same_name-equal : (a b : Name) → same_name a b ≡ true → a ≡ b
unfolding same_name
same_name-equal [] [] e = refl
same_name-equal [] (b ∷ bs) e = cc
same_name-equal (a ∷ more) [] e = cc
same_name-equal (a ∷ more) (b ∷ bs) e = ground (arith, e, same_name-equal more bs)

same_name_self : (a : Name) → same_name a a ≡ true
unfolding same_name
same_name_self [] = refl
same_name_self (a ∷ more) = ground (arith, same_name_self more)

-- The first filter of the name, or null if no filter has it.
abbrev pub IsFirst : Name → List Entry → Option ℕ → Type 0
IsFirst name [] r = r ≡ none
IsFirst name (x ∷ xs) r = ((x.1 ≡ name) × (r ≡ some x.0)) ⊎ ((x.1 ≢ name) × IsFirst name xs r)

-- A round of `find`.
module _ (name : Name) (fuel : ℕ) (m : Memory) (f : ℕ) (v : Filter) (there : m f ≡ some v) where
  abbrev chosen : Bool → Result (Option ℕ)
  chosen hit = elim hit [ true ↦ returned (some f) | false ↦ find_from name fuel m v.in_bound ]

  find_from-hit :
      same_name v.name name ≡ true → find_from name (suc fuel) m (some f) ≡ returned (some f)
  unfolding find_from
  find_from-hit e = rw (load_lem m f v there) (ap chosen e)

  pub find_from-on :
      same_name v.name name ≡ false
      → find_from name (suc fuel) m (some f) ≡ find_from name fuel m v.in_bound
  unfolding find_from
  find_from-on e = rw (load_lem m f v there) (ap chosen e)

find_from_lem :
    (name : Name) (fuel c : ℕ) (m : Memory) (prev : Option ℕ) (xs : List Entry)
    → Linked c m prev xs
    → length xs < fuel
    → (r : Option ℕ) × (find_from name fuel m (first_of xs) ≡ returned r) × IsFirst name xs r
unfolding find_from
find_from_lem name zero c m prev xs l enough = absurd (omega arith)
find_from_lem name (suc fuel) c m prev [] l enough = (none, refl, refl)
find_from_lem name (suc fuel) c m prev (x ∷ xs) l enough =
    let (r, found, first) = find_from_lem name fuel c m (some x.0) xs l.2 (omega (arith, enough)) in
    elim (Bool-cases (same_name x.1 name)) [
      | inl e ↦
          (some x.0, find_from-hit name fuel m x.0 _ l.0 e, inl (same_name-equal x.1 name e, refl))
      | inr e ↦ (
        r,
        find_from-on name fuel m x.0 _ l.0 e ∙ found,
        inr (
          (λ same. absurd (let no = sym (same_name_self x.1) ∙ ap (same_name x.1) same ∙ e in cc)),
          first,
        ),
      )
    ]

-- `find` ends, and gives the first filter of the name, or null if there is none.
pub find_lem :
    (name : Name) (fuel : ℕ) (m : Memory) (p : Pipeline) (xs : List Entry)
    → Stands m p xs
    → length xs < fuel
    → (r : Option ℕ) × (find name fuel m p ≡ returned r) × IsFirst name xs r
unfolding find
find_lem name fuel m p xs s enough =
    let (r, found, first) = find_from_lem name fuel p.channel m none xs s.linked enough in
    (r, ap (find_from name fuel m) s.head ∙ found, first)

-- The memory without the filters.
abbrev pub without : List Entry → Memory → Memory
without [] m = m
without (x ∷ xs) m = without xs (put x.0 none m)

delete_from_lem :
    (fuel c : ℕ) (m : Memory) (prev : Option ℕ) (xs : List Entry)
    → Linked c m prev xs
    → length xs < fuel
    → delete_from fuel (first_of xs) m ≡ returned (without xs m)
unfolding delete_from
delete_from_lem zero c m prev xs l enough = absurd (omega arith)
delete_from_lem (suc fuel) c m prev [] l enough = refl
delete_from_lem (suc fuel) c m prev (x ∷ xs) l enough =
    let here = load_lem m x.0 _ l.0 in
    let same = Fresh-put x.0 none m xs l.1 in
    let rest =
      delete_from_lem fuel c (put x.0 none m) (some x.0) xs
        (Linked-agree c m (put x.0 none m) (some x.0) xs same l.2) (omega (arith, enough)) in
    rw here rest

without-Fresh : (xs : List Entry) (m : Memory) (g : ℕ) → Fresh g xs → without xs m g ≡ m g
without-Fresh [] m g fresh = refl
without-Fresh (x ∷ xs) m g fresh =
    without-Fresh xs (put x.0 none m) g fresh.1 ∙ put-other x.0 g none m (λ e. fresh.0 (sym e))

without-none : (xs : List Entry) (m : Memory) (g : ℕ) → m g ≡ none → without xs m g ≡ none
without-none [] m g e = e
without-none (x ∷ xs) m g e = without-none xs (put x.0 none m) g (ground (arith, e))

without_lem : (xs : List Entry) (m : Memory) → All (λ x. without xs m x.0 ≡ none) xs
without_lem [] m = tt
without_lem (x ∷ xs) m =
    (without-none xs (put x.0 none m) x.0 (put_self x.0 none m), without_lem xs (put x.0 none m))

-- The destructor ends, deletes each filter of the pipeline, none of them twice, and no other.
pub delete_lem :
    (fuel : ℕ) (m : Memory) (p : Pipeline) (xs : List Entry)
    → Stands m p xs
    → length xs < fuel
    → (m' : Memory) × (delete_from fuel p.chain.head m ≡ returned m')
      × All (λ x. m' x.0 ≡ none) xs
      × ((g : ℕ) → Fresh g xs → m' g ≡ m g)
delete_lem fuel m p xs s enough = (
  without xs m,
  ap (λ f. delete_from fuel f m) s.head ∙ delete_from_lem fuel p.channel m none xs s.linked enough,
  without_lem xs m,
  λ g fresh. without-Fresh xs m g fresh,
)
