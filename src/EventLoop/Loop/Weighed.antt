-- ===== src/EventLoop/Loop/Weighed.antt =====
-- The calls of a round, and what they add up to.
use deprecated_tdk.Prelude.{
  ℕ, zero, suc, ◌+◌, ◌≡◌, refl, true, false, leb, Option, none, some, List, [], ◌∷◌,
}
use deprecated_tdk.EventLoop.Scheduler.{TimerTask}
use deprecated_tdk.EventLoop.Loop.{
  Task, object, schedule_later, cancel_later, Loop, run_task, run_timers, counted,
}
use deprecated_tdk.EventLoop.Loop.Active.{Acts}

-- What a call does to the loop, by the address of its object and the loop that it finds: besides
-- posting tasks and setting and stopping timers it closes `closes` handles that were open and leaves
-- `opens` handles open that were not.
abbrev pub IsActing : (ℕ → Loop → Loop) → (ℕ → Loop → ℕ) → (ℕ → Loop → ℕ) → Type 0
IsActing handler opens closes =
    (address n : ℕ) (l : Loop)
    → Acts (n + closes address l) l (n + opens address l) (handler address l)

-- The sum of `weigh` over the calls that a round makes.
module _ (handler : ℕ → Loop → Loop) (weigh : ℕ → Loop → ℕ) where
  abbrev pub over_task : Task → Loop → ℕ
  over_task (object address) l = weigh address l
  over_task (schedule_later tt) l = 0
  over_task (cancel_later tt) l = 0

  unfoldable pub over_queue : List Task → Loop → ℕ
  over_queue [] l = 0
  over_queue (t ∷ queue) l = over_task t l + over_queue queue (run_task handler t l)

  unfoldable pub over_timers : (ℕ → ℕ) → ℕ → ℕ → Loop → ℕ
  over_timers now k zero l = 0
  over_timers now k (suc fuel) l = elim l.timers [
    | [] ↦ 0
    | t ∷ timers ↦ elim (leb t.expired_at (now k)) [
      | false ↦ 0
      | true ↦
          let popped : Loop = record l { timers = timers } in
          weigh t.address popped + over_timers now (k + 1) fuel (handler t.address popped)
    ]
  ]

  unfoldable pub over_tasks : Option (Loop × ℕ) → ℕ
  over_tasks none = 0
  over_tasks (some (l, cnt)) = over_queue l.tasks (record l { tasks = [] })

  unfoldable pub over_turn : (ℕ → ℕ) → ℕ → Loop → ℕ
  over_turn now fuel l = over_timers now 0 fuel l + over_tasks (run_timers handler now 0 fuel l)

-- The cases of `run_timers`.
module _ (handler : ℕ → Loop → Loop) (now : ℕ → ℕ) (k fuel : ℕ) (l : Loop) where
  pub none_set : l.timers ≡ [] → run_timers handler now k (suc fuel) l ≡ some (l, 0)
  unfolding run_timers
  none_set e = simp (run_timers, e) refl

  pub none_due :
      (t : TimerTask) (timers : List TimerTask)
      → l.timers ≡ t ∷ timers
      → leb t.expired_at (now k) ≡ false
      → run_timers handler now k (suc fuel) l ≡ some (l, 0)
  unfolding run_timers
  none_due t timers e waits = simp (run_timers, e, waits) refl

  pub front_due :
      (t : TimerTask) (timers : List TimerTask)
      → l.timers ≡ t ∷ timers
      → leb t.expired_at (now k) ≡ true
      → run_timers handler now k (suc fuel) l
        ≡ counted
            (run_timers handler now (k + 1) fuel (handler t.address (record l { timers = timers })))
  unfolding run_timers
  front_due t timers e due = simp (run_timers, e, due) refl

-- The cases of `over_timers`.
module _ (handler : ℕ → Loop → Loop) (weigh : ℕ → Loop → ℕ) (now : ℕ → ℕ) (k fuel : ℕ)
    (l : Loop) where
  pub over-none : l.timers ≡ [] → over_timers handler weigh now k (suc fuel) l ≡ 0
  unfolding over_timers
  over-none e = simp (over_timers, e) refl

  pub over-waits :
      (t : TimerTask) (timers : List TimerTask)
      → l.timers ≡ t ∷ timers
      → leb t.expired_at (now k) ≡ false
      → over_timers handler weigh now k (suc fuel) l ≡ 0
  unfolding over_timers
  over-waits t timers e waits = simp (over_timers, e, waits) refl

  pub over-due :
      (t : TimerTask) (timers : List TimerTask)
      → l.timers ≡ t ∷ timers
      → leb t.expired_at (now k) ≡ true
      → let popped : Loop = record l { timers = timers } in
        over_timers handler weigh now k (suc fuel) l
        ≡ weigh t.address popped
          + over_timers handler weigh now (k + 1) fuel (handler t.address popped)
  unfolding over_timers
  over-due t timers e due = simp (over_timers, e, due) refl
