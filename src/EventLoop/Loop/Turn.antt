-- ===== src/EventLoop/Loop/Turn.antt =====
-- A round of the loop subtracts exactly the calls that it made.
use mathlib.Core.Path.{subst}
use deprecated_tdk.Prelude.{
  empty_of_length, ◌↔◌, ℕ, zero, suc, ◌+◌, ◌^◌, ◌≤◌, ◌<◌, ◌≡◌, ◌∙◌, refl, sym, ap, true, leb,
  Bool-cases, inl, inr, Option, none, some, List, [], ◌∷◌, length, arith,
}
use deprecated_tdk.EventLoop.Scheduler.{TimerTask}
use deprecated_tdk.EventLoop.Loop.{
  Task, object, schedule_later, cancel_later, Loop, subtract_active, run_task, run_queue, run_tasks,
  run_timers, finish_turn, counted, turn,
}
use deprecated_tdk.EventLoop.Loop.Active.{
  Balanced, Acts-Balanced, schedule-Balanced, cancel-Balanced,
}
use deprecated_tdk.EventLoop.Loop.Weighed.{
  IsActing, over_task, over_queue, over_timers, over_tasks, over_turn, none_set, none_due,
  front_due, over-none, over-waits, over-due,
}

module _ (handler : ℕ → Loop → Loop) (opens closes : ℕ → Loop → ℕ)
    (acting : IsActing handler opens closes) where
  run_task-Balanced :
      (n : ℕ) (t : Task) (l : Loop)
      → Balanced (n + over_task handler closes t l) l
      → Balanced (n + over_task handler opens t l) (run_task handler t l)
  unfolding run_task
  run_task-Balanced n (object address) l b =
      Acts-Balanced (n + closes address l) (n + opens address l) l (handler address l)
        (acting address n l) b
  run_task-Balanced n (schedule_later tt) l b = schedule-Balanced (n + 0) true tt l b
  run_task-Balanced n (cancel_later tt) l b = cancel-Balanced (n + 0) true tt l b

  run_queue-Balanced :
      (n : ℕ) (queue : List Task) (l : Loop)
      → Balanced (n + over_queue handler closes queue l) l
      → let (l', cnt) = run_queue handler queue l in
        Balanced (n + over_queue handler opens queue l) l' × (cnt ≡ length queue)
  unfolding run_queue over_queue
  run_queue-Balanced n [] l b = (b, refl)
  run_queue-Balanced n (t ∷ queue) l b =
      let k = run_task handler t l in
      let later = over_queue handler closes queue k in
      let once = run_task-Balanced (n + later) t l (omega (arith, b)) in
      let (b', count) =
        run_queue-Balanced (n + over_task handler opens t l) queue k (omega (arith, once)) in
      (omega (arith, b'), omega (arith, count))

-- The calls of timers count as long as they are not subtracted.
abbrev Pending : ℕ → Option (Loop × ℕ) → Type 0
Pending n none = Unit {0}
Pending n (some (l, cnt)) = Balanced (n + cnt) l

counted-Pending : (n : ℕ) (r : Option (Loop × ℕ)) → Pending (n + 1) r → Pending n (counted r)
counted-Pending n none p = tt
counted-Pending n (some (l, cnt)) p = omega (arith, p)

module _ (handler : ℕ → Loop → Loop) (opens closes : ℕ → Loop → ℕ)
    (acting : IsActing handler opens closes) where
  abbrev IsWeighed : (ℕ → ℕ) → ℕ → ℕ → Loop → Type 0
  IsWeighed now k fuel l =
      (n : ℕ)
      → Balanced (n + over_timers handler closes now k fuel l) l
      → Pending (n + over_timers handler opens now k fuel l) (run_timers handler now k fuel l)

  due-IsWeighed :
      (now : ℕ → ℕ) (k fuel : ℕ) (l : Loop) (t : TimerTask) (timers : List TimerTask)
      → l.timers ≡ t ∷ timers
      → leb t.expired_at (now k) ≡ true
      → IsWeighed now (k + 1) fuel (handler t.address (record l { timers = timers }))
      → IsWeighed now k (suc fuel) l
  due-IsWeighed now k fuel l t timers e due again n b =
      let popped : Loop = record l { timers = timers } in
      let called : Loop = handler t.address popped in
      let later : ℕ = over_timers handler closes now (k + 1) fuel called in
      let o : ℕ = opens t.address popped in
      let more : ℕ = over_timers handler opens now (k + 1) fuel called in
      let before = over-due handler closes now k fuel l t timers e due in
      let after = over-due handler opens now k fuel l t timers e due in
      let one_less : Balanced (n + 1 + later + closes t.address popped) popped =
        omega (arith, b, ap length e, before) in
      let once : Balanced (n + 1 + later + o) called =
        Acts-Balanced (n + 1 + later + closes t.address popped) (n + 1 + later + o) popped called
          (acting t.address (n + 1 + later) popped) one_less in
      let rest = again (n + 1 + o) (omega (arith, once)) in
      let r = run_timers handler now (k + 1) fuel called in
      let all : Pending (n + (o + more) + 1) r = subst (λ m. Pending m r) (omega arith) rest in
      subst (λ m. Pending (n + m) (run_timers handler now k (suc fuel) l)) (sym after)
        (subst (Pending (n + (o + more))) (sym (front_due handler now k fuel l t timers e due))
          (counted-Pending (n + (o + more)) r all))

  run_timers-Pending : (now : ℕ → ℕ) (k fuel : ℕ) (l : Loop) → IsWeighed now k fuel l
  unfolding run_timers over_timers
  run_timers-Pending now k zero l = λ n b. tt
  run_timers-Pending now k (suc fuel) l =
      go (λ c. run_timers-Pending now (k + 1) fuel c) l.timers refl
    where
      idle :
          (n : ℕ)
          → over_timers handler closes now k (suc fuel) l ≡ 0
          → over_timers handler opens now k (suc fuel) l ≡ 0
          → run_timers handler now k (suc fuel) l ≡ some (l, 0)
          → Balanced (n + over_timers handler closes now k (suc fuel) l) l
          → Pending
              (n + over_timers handler opens now k (suc fuel) l)
              (run_timers handler now k (suc fuel) l)
      idle n none_closed none_opened is b =
          subst (λ m. Pending (n + m) (run_timers handler now k (suc fuel) l)) (sym none_opened)
            (subst (Pending (n + 0)) (sym is) (omega (arith, b, none_closed)))

      go :
          ((c : Loop) → IsWeighed now (k + 1) fuel c)
          → (ts : List TimerTask) → l.timers ≡ ts
          → IsWeighed now k (suc fuel) l
      go again [] e n b =
          idle n (over-none handler closes now k fuel l e) (over-none handler opens now k fuel l e)
            (none_set handler now k fuel l e) b
      go again (t ∷ timers) e n b = elim (Bool-cases (leb t.expired_at (now k))) [
        | inl due ↦
            due-IsWeighed now k fuel l t timers e due
              (again (handler t.address (record l { timers = timers }))) n b
        | inr waits ↦
            idle n (over-waits handler closes now k fuel l t timers e waits)
              (over-waits handler opens now k fuel l t timers e waits)
              (none_due handler now k fuel l t timers e waits) b
      ]

  abbrev AllBalanced : ℕ → Option Loop → Type 0
  AllBalanced n none = Unit {0}
  AllBalanced n (some l) = Balanced n l

  finish_turn-Balanced :
      (n : ℕ) (r : Option (Loop × ℕ))
      → Pending (n + over_tasks handler closes r) r
      → AllBalanced (n + over_tasks handler opens r) (finish_turn handler r)
  unfolding finish_turn run_tasks subtract_active over_tasks
  finish_turn-Balanced n none p = tt
  finish_turn-Balanced n (some (l, cnt)) p =
      let taken : Loop = record l { tasks = [] } in
      let (b, count) =
        run_queue-Balanced handler opens closes acting (n + cnt + length l.tasks) l.tasks taken
          (omega (arith, p)) in
      omega (arith, b, count)

-- A round of `run` keeps the count: besides one for each timer and task, which may come and go, the
-- open handles that it counts after the round are those before it, without the ones that the calls
-- of the round closed and with the ones that they opened. Each call is taken for what it does: the
-- sums are over the calls in the order in which the round makes them.
pub turn-Balanced :
    (handler : ℕ → Loop → Loop) (opens closes : ℕ → Loop → ℕ) (now : ℕ → ℕ) (fuel n : ℕ)
    (l l' : Loop)
    → IsActing handler opens closes
    → Balanced (n + over_turn handler closes now fuel l) l
    → turn handler now fuel l ≡ some l'
    → Balanced (n + over_turn handler opens now fuel l) l'
unfolding turn over_turn
turn-Balanced handler opens closes now fuel n l l' acting b e =
    let timers_closed = over_timers handler closes now 0 fuel l in
    let timers_opened = over_timers handler opens now 0 fuel l in
    let r = run_timers handler now 0 fuel l in
    let tasks_closed = over_tasks handler closes r in
    let pending =
      run_timers-Pending handler opens closes acting now 0 fuel l (n + tasks_closed)
        (omega (arith, b)) in
    let all =
      finish_turn-Balanced handler opens closes acting (n + timers_opened) r
        (subst (λ m. Pending m r) (omega arith) pending) in
    subst (AllBalanced handler opens closes acting (n + over_turn handler opens now fuel l)) e (
      subst (λ m. AllBalanced handler opens closes acting m (finish_turn handler r)) (omega arith)
        all)

-- `while ( _active_handles.load() )` ends if and only if no timer, no task and no handle is left.
pub stops_lem :
    (n : ℕ) (l : Loop)
    → Balanced n l
    → n + length l.timers + length l.tasks < 2 ^ 32
    → (l.active ≡ 0) ↔ ((n ≡ 0) × (l.timers ≡ []) × (l.tasks ≡ []))
stops_lem n l b small = (
  λ e. (
    omega (arith, b, e),
    empty_of_length l.timers (omega (arith, b, e)),
    empty_of_length l.tasks (omega (arith, b, e)),
  ),
  λ (none_open, no_timer, no_task).
      omega (arith, b, none_open, ap length no_timer, ap length no_task),
)

run_timers-ends :
    (handler : ℕ → Loop → Loop) (now : ℕ → ℕ) (k fuel : ℕ) (l : Loop)
    → ((address : ℕ) (c : Loop) → length (handler address c).timers ≤ length c.timers)
    → length l.timers < fuel
    → (l' : Loop) × (cnt : ℕ) × (run_timers handler now k fuel l ≡ some (l', cnt))
run_timers-ends handler now k zero l fewer enough = absurd (omega arith)
run_timers-ends handler now k (suc fuel) l fewer enough =
    go (λ c less. run_timers-ends handler now (k + 1) fuel c fewer less) l.timers refl
  where
    go :
        ((c : Loop)
          → length c.timers < fuel
          → (l' : Loop) × (cnt : ℕ) × (run_timers handler now (k + 1) fuel c ≡ some (l', cnt)))
        → (ts : List TimerTask) → l.timers ≡ ts
        → (l' : Loop) × (cnt : ℕ) × (run_timers handler now k (suc fuel) l ≡ some (l', cnt))
    go again [] e = (l, 0, none_set handler now k fuel l e)
    go again (t ∷ timers) e = elim (Bool-cases (leb t.expired_at (now k))) [
      | inl due ↦
          let popped : Loop = record l { timers = timers } in
          let (l', cnt, run) =
            again (handler t.address popped)
              (omega (arith, enough, ap length e, fewer t.address popped)) in
          (l', cnt + 1, front_due handler now k fuel l t timers e due ∙ ap counted run)
      | inr waits ↦ (l, 0, none_due handler now k fuel l t timers e waits)
    ]

-- A round ends if no handler sets more timers than it stops: one step of fuel for each timer, and
-- one more, is enough.
pub turn-ends :
    (handler : ℕ → Loop → Loop) (now : ℕ → ℕ) (fuel : ℕ) (l : Loop)
    → ((address : ℕ) (k : Loop) → length (handler address k).timers ≤ length k.timers)
    → length l.timers < fuel
    → (l' : Loop) × (turn handler now fuel l ≡ some l')
unfolding turn finish_turn
turn-ends handler now fuel l fewer enough =
    let (l₁, cnt, run) = run_timers-ends handler now 0 fuel l fewer enough in
    (_, ap (finish_turn handler) run)
