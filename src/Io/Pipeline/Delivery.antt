-- ===== src/Io/Pipeline/Delivery.antt =====
-- Whom the events and the writes of a channel arrive at.
use mathlib.Core.Path.{subst}
use mathlib.Core.List.{append-nil}
use deprecated_tdk.Prelude.{
  ℕ, zero, suc, ◌+◌, ◌≤◌, ◌<◌, ◌≡◌, ◌∙◌, refl, sym, Bool, true, false, Option, none, some, List, [],
  ◌∷◌, ◌++◌, length, if◌then◌else◌, Bool-cases, inl, inr, arith,
}
use deprecated_tdk.Io.Result.{Result, returned}
use deprecated_tdk.Io.Pipeline.{
  Filter, Memory, Pipeline, Receiver, nobody, to_filter, to_channel, event, do_write,
  write_out_bound, fire_event, fire_do_write,
}
use deprecated_tdk.Io.Pipeline.Links.{load_lem, Entry, first_of, end_of, Linked, Stands}

module _ (own : ℕ → Bool) where
  -- The first filter of the list with a handler of its own.
  abbrev pub first_own : List Entry → Receiver
  first_own [] = nobody
  first_own (x ∷ xs) = if own x.0 then to_filter x.0 else first_own xs

  -- The last one, or `r` if there is none.
  abbrev pub last_own : Receiver → List Entry → Receiver
  last_own r [] = r
  last_own r (x ∷ xs) = last_own (if own x.0 then to_filter x.0 else r) xs

  -- A round of an event.
  module _ (fuel : ℕ) (m : Memory) (f : ℕ) (v : Filter) (there : m f ≡ some v) where
    event-own : own f ≡ true → event own (suc fuel) m f ≡ returned (to_filter f)
    unfolding event
    event-own e = simp (event, load_lem m f v there, e) refl

    event-end : own f ≡ false → v.in_bound ≡ none → event own (suc fuel) m f ≡ returned nobody
    unfolding event
    event-end e last = simp (event, load_lem m f v there, e, last) refl

    event-on :
        (g : ℕ)
        → own f ≡ false
        → v.in_bound ≡ some g
        → event own (suc fuel) m f ≡ event own fuel m g
    unfolding event
    event-on g e next = simp (event, load_lem m f v there, e, next) refl

  event_lem :
      (fuel c : ℕ) (m : Memory) (prev : Option ℕ) (x : Entry) (xs : List Entry)
      → Linked c m prev (x ∷ xs)
      → length xs < fuel
      → event own fuel m x.0 ≡ returned (first_own (x ∷ xs))
  event_lem zero c m prev x xs l enough = absurd (omega arith)
  event_lem (suc fuel) c m prev x [] l enough = elim (Bool-cases (own x.0)) [
    | inl e ↦ event-own fuel m x.0 _ l.0 e ∙ rw e refl
    | inr e ↦ event-end fuel m x.0 _ l.0 e refl ∙ rw e refl
  ]
  event_lem (suc fuel) c m prev x (y ∷ xs) l enough = elim (Bool-cases (own x.0)) [
    | inl e ↦ event-own fuel m x.0 _ l.0 e ∙ rw e refl
    | inr e ↦
        event-on fuel m x.0 _ l.0 y.0 e refl
        ∙ event_lem fuel c m (some x.0) y xs l.2 (omega (arith, enough))
        ∙ rw e refl
  ]

  -- Where a write goes on from a filter in front of which `prev` stands.
  abbrev passed : ℕ → ℕ → Memory → Option ℕ → Result Receiver
  passed c fuel m none = returned (to_channel c)
  passed c fuel m (some g) = do_write own fuel m g

  -- A round of `do_write`.
  module _ (fuel c : ℕ) (m : Memory) (f : ℕ) (v : Filter) (there : m f ≡ some v) where
    do_write-own : own f ≡ true → do_write own (suc fuel) m f ≡ returned (to_filter f)
    unfolding do_write
    do_write-own e = simp (do_write, load_lem m f v there, e) refl

    do_write-on :
        own f ≡ false
        → v.channel ≡ some c
        → do_write own (suc fuel) m f ≡ passed c fuel m v.out_bound
    unfolding do_write
    do_write-on e with_channel = go v.out_bound refl
      where
        go : (o : Option ℕ) → v.out_bound ≡ o → do_write own (suc fuel) m f ≡ passed c fuel m o
        go none is = simp (do_write, load_lem m f v there, e, is, with_channel) refl
        go (some g) is = simp (do_write, load_lem m f v there, e, is) refl

  do_write_next :
      (fuel c : ℕ) (m : Memory) (prev : Option ℕ) (x : Entry) (xs : List Entry) (r : Receiver)
      → Linked c m prev (x ∷ xs)
      → passed c fuel m prev ≡ returned r
      → do_write own (suc fuel) m x.0 ≡ returned (if own x.0 then to_filter x.0 else r)
  do_write_next fuel c m prev x xs r l e = elim (Bool-cases (own x.0)) [
    | inl o ↦ do_write-own fuel c m x.0 _ l.0 o ∙ rw o refl
    | inr o ↦ do_write-on fuel c m x.0 _ l.0 o refl ∙ e ∙ rw o refl
  ]

  after :
      (k c : ℕ) (m : Memory) (prev : Option ℕ) (x : Entry) (xs : List Entry) (r : Receiver)
      → Linked c m prev (x ∷ xs)
      → ((fuel : ℕ) → k ≤ fuel → passed c fuel m prev ≡ returned r)
      → (fuel : ℕ) → suc k ≤ fuel
      → passed c fuel m (some x.0) ≡ returned (if own x.0 then to_filter x.0 else r)
  after k c m prev x xs r l passes zero more = absurd (omega arith)
  after k c m prev x xs r l passes (suc fuel) more =
      do_write_next fuel c m prev x xs r l (passes fuel (omega (arith, more)))

  -- From the last filter of a part of the list, whatever stands behind it.
  do_write_lem :
      (k c : ℕ) (m : Memory) (prev : Option ℕ) (x : Entry) (xs ys : List Entry) (r : Receiver)
      → Linked c m prev ((x ∷ xs) ++ ys)
      → ((fuel : ℕ) → k ≤ fuel → passed c fuel m prev ≡ returned r)
      → (fuel : ℕ) → k + suc (length xs) ≤ fuel
      → do_write own fuel m (end_of x xs) ≡ returned (last_own r (x ∷ xs))
  do_write_lem k c m prev x xs ys r l passes zero enough = absurd (omega arith)
  do_write_lem k c m prev x [] ys r l passes (suc fuel) enough =
      do_write_next fuel c m prev x ys r l (passes fuel (omega (arith, enough)))
  do_write_lem k c m prev x (y ∷ xs) ys r l passes (suc fuel) enough =
      do_write_lem (suc k) c m (some x.0) y xs ys (if own x.0 then to_filter x.0 else r) l.2
        (after k c m prev x (y ∷ (xs ++ ys)) r l passes) (suc fuel) (omega (arith, enough))

  -- `_out_bound->do_write`, or the write of the channel.
  write_out_bound_lem :
      (fuel c : ℕ) (m : Memory) (f : ℕ) (v : Filter)
      → m f ≡ some v
      → v.channel ≡ some c
      → write_out_bound own fuel m f ≡ passed c fuel m v.out_bound
  unfolding write_out_bound
  write_out_bound_lem fuel c m f v there with_channel = go v.out_bound refl
    where
      go : (o : Option ℕ) → v.out_bound ≡ o → write_out_bound own fuel m f ≡ passed c fuel m o
      go none is = simp (write_out_bound, load_lem m f v there, is, with_channel) refl
      go (some g) is = simp (write_out_bound, load_lem m f v there, is) refl

-- What stands at a filter in the list.
Linked-split :
    (c : ℕ) (m : Memory) (prev : Option ℕ) (w : Entry) (ws : List Entry) (x : Entry)
    (ys : List Entry)
    → Linked c m prev ((w ∷ ws) ++ (x ∷ ys))
    → m x.0
      ≡ some (record {
        channel = some c;
        in_bound = first_of ys;
        out_bound = some (end_of w ws);
        name = x.1;
      })
Linked-split c m prev w [] x ys l = l.2.0
Linked-split c m prev w (z ∷ ws) x ys l = Linked-split c m (some w.0) z ws x ys l.2

-- An event of the channel arrives at the first filter with a handler of its own, or at nobody, and
-- a write at the last one, or at the channel, if there is a filter at all.
pub fire_lem :
    (own : ℕ → Bool) (fuel : ℕ) (m : Memory) (p : Pipeline) (x : Entry) (xs : List Entry)
    → Stands m p (x ∷ xs)
    → length xs < fuel
    → (fire_event own fuel m p ≡ returned (first_own own (x ∷ xs)))
      × (fire_do_write own fuel m p ≡ returned (last_own own (to_channel p.channel) (x ∷ xs)))
unfolding fire_event fire_do_write
fire_lem own fuel m p x xs s enough =
    let l : Linked p.channel m none ((x ∷ xs) ++ []) =
      subst (Linked p.channel m none) (sym (append-nil (x ∷ xs))) s.linked in
    (
      rw s.head (event_lem own fuel p.channel m none x xs s.linked enough),
      rw s.tail (
          do_write_lem own 0 p.channel m none x xs [] (to_channel p.channel) l (λ fuel' more. refl)
            fuel (omega (arith, enough))),
    )

-- What a filter writes with `write_out_bound` arrives at the last filter before it that has a
-- `do_write` of its own, or at the channel.
write_out_bound-before :
    (own : ℕ → Bool) (fuel : ℕ) (m : Memory) (p : Pipeline) (xs : List Entry) (x : Entry)
    (ys : List Entry)
    → Stands m p (xs ++ (x ∷ ys))
    → length xs ≤ fuel
    → write_out_bound own fuel m x.0 ≡ returned (last_own own (to_channel p.channel) xs)
write_out_bound-before own fuel m p [] x ys s enough =
    write_out_bound_lem own fuel p.channel m x.0 _ s.linked.0 refl
write_out_bound-before own fuel m p (w ∷ ws) x ys s enough =
    write_out_bound_lem own fuel p.channel m x.0 _
      (Linked-split p.channel m none w ws x ys s.linked) refl
    ∙ do_write_lem own 0 p.channel m none w ws (x ∷ ys) (to_channel p.channel) s.linked
        (λ fuel' more. refl) fuel (omega (arith, enough))
