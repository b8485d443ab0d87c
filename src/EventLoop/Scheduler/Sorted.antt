-- ===== src/EventLoop/Scheduler/Sorted.antt =====
-- The list stays sorted, so the front is the next timer to expire.
use deprecated_tdk.Prelude.{
  ℕ, ◌+◌, ◌≤◌, ◌<◌, ◌≡◌, refl, ap, ltb, leb, Bool-cases, inl, inr, List, [], ◌∷◌, ◌++◌, All, arith,
}
use deprecated_tdk.EventLoop.Scheduler.{TimerTask, insert, take_expired}

-- Each timer waits no longer than all behind it.
abbrev pub IsSorted : List TimerTask → Type 0
IsSorted [] = Unit {0}
IsSorted (t ∷ timers) = All (λ u. t.expired_at ≤ u.expired_at) timers × IsSorted timers

All-map :
    {A : Type 0} {P Q : A → Type 0} → ((x : A) → P x → Q x) → (xs : List A) → All P xs → All Q xs
All-map f [] p = tt
All-map f (x ∷ xs) p = (f x p.0, All-map f xs p.1)

All-insert :
    (P : TimerTask → Type 0) (new : TimerTask) (timers : List TimerTask)
    → P new
    → All P timers
    → All P (insert new timers)
unfolding insert
All-insert P new [] p ps = (p, tt)
All-insert P new (t ∷ timers) p ps = elim (Bool-cases (ltb new.expired_at t.expired_at)) [
  | inl before ↦ rw before (p, ps)
  | inr behind ↦ rw behind (ps.0, All-insert P new timers p ps.1)
]

pub insert-IsSorted :
    (new : TimerTask) (timers : List TimerTask) → IsSorted timers → IsSorted (insert new timers)
unfolding insert
insert-IsSorted new [] s = (tt, tt)
insert-IsSorted new (t ∷ timers) s = elim (Bool-cases (ltb new.expired_at t.expired_at)) [
  | inl before ↦
      let less : new.expired_at < t.expired_at = ground arith in
      rw before ((omega (arith, less), All-map (λ u le. omega (arith, less, le)) timers s.0), s)
  | inr behind ↦
      let more : t.expired_at ≤ new.expired_at = ground arith in
      rw behind (
        All-insert (λ u. t.expired_at ≤ u.expired_at) new timers more s.0,
        insert-IsSorted new timers s.1,
      )
]

-- A timer goes behind all timers that wait no longer than it and before all that wait longer, so
-- timers for the same moment stay in the order in which they came; the list stays sorted.
insert_lem :
    (new : TimerTask) (timers : List TimerTask)
    → IsSorted timers
    → (front back : List TimerTask) × (timers ≡ front ++ back)
      × (insert new timers ≡ front ++ (new ∷ back))
      × All (λ t. t.expired_at ≤ new.expired_at) front
      × All (λ t. new.expired_at < t.expired_at) back
      × IsSorted (insert new timers)
unfolding insert
insert_lem new [] s = ([], [], refl, refl, tt, tt, (tt, tt))
insert_lem new (t ∷ timers) s = elim (Bool-cases (ltb new.expired_at t.expired_at)) [
  | inl before ↦
      let less : new.expired_at < t.expired_at = ground arith in
      (
        [],
        t ∷ timers,
        refl,
        rw before refl,
        tt,
        (less, All-map (λ u le. omega (arith, less, le)) timers s.0),
        insert-IsSorted new (t ∷ timers) s,
      )
  | inr behind ↦
      let (front, back, whole, placed, low, high, sorted) = insert_lem new timers s.1 in
      (
        t ∷ front,
        back,
        ap (λ l. t ∷ l) whole,
        rw behind (ap (λ l. t ∷ l) placed),
        (ground arith, low),
        high,
        insert-IsSorted new (t ∷ timers) s,
      )
]

-- Exactly the timers are taken that expired by the last reading of a clock that does not go back.
take_expired_lem :
    (now : ℕ → ℕ) (k : ℕ) (timers : List TimerTask)
    → ((i : ℕ) → now i ≤ now (i + 1))
    → IsSorted timers
    → let (expireds, rest) = take_expired now k timers in
      (last : ℕ) × (expireds ++ rest ≡ timers)
      × (now k ≤ now last)
      × All (λ t. t.expired_at ≤ now last) expireds
      × All (λ t. now last < t.expired_at) rest
unfolding take_expired
take_expired_lem now k [] forward s = (k, refl, omega arith, tt, tt)
take_expired_lem now k (t ∷ timers) forward s = elim (Bool-cases (leb t.expired_at (now k))) [
  | inl due ↦
      let (last, whole, later, low, high) = take_expired_lem now (k + 1) timers forward s.1 in
      let expired : t.expired_at ≤ now k = ground arith in
      let after : now k ≤ now last = omega (arith, forward k, later) in
      rw due (last, ap (λ l. t ∷ l) whole, after, (omega (arith, expired, after), low), high)
  | inr waits ↦
      let not_yet : now k < t.expired_at = ground arith in
      rw waits (
        k,
        refl,
        omega arith,
        tt,
        (not_yet, All-map (λ u le. omega (arith, not_yet, le)) timers s.0),
      )
]
