-- ===== src/EventLoop/Loop/Tests.antt =====
-- A loop with two timers and two tasks.
use mathlib.Core.Path.{subst}
use deprecated_tdk.Prelude.{
  ℕ, ◌+◌, ◌≡◌, refl, true, false, some, [], ◌∷◌, ◌==◌, if◌then◌else◌, arith,
}
use deprecated_tdk.EventLoop.Loop.{
  object, Loop, execute, add_active, remove_active, run_timers, run_task, run_queue, run_tasks,
  finish_turn, subtract_active, turn,
}
use deprecated_tdk.EventLoop.Loop.Active.{Balanced, Acts, done, post, open_handle, close_handle}
use deprecated_tdk.EventLoop.Loop.Weighed.{IsActing, over_queue, over_timers, over_tasks, over_turn}
use deprecated_tdk.EventLoop.Loop.Turn.{turn-Balanced, turn-ends}

-- The object at 1 posts the object at 2 and opens a handle; the object at 3 closes one.
abbrev handler : ℕ → Loop → Loop
handler address l =
    if address == 1
    then add_active (execute (object 2) l)
    else if address == 3
    then remove_active l
    else l

abbrev opens : ℕ → Loop → ℕ
opens address l = if address == 1 then 1 else 0

abbrev closes : ℕ → Loop → ℕ
closes address l = if address == 1 then 0 else if address == 3 then 1 else 0

handler-IsActing : IsActing handler opens closes
handler-IsActing address n l =
    elim (address == 1)
      as (λ c.
        Acts (n + (if c then 0 else if address == 3 then 1 else 0)) l (n + (if c then 1 else 0)) (
          if c
          then add_active (execute (object 2) l)
          else if address == 3
          then remove_active l
          else l)) [
            | true ↦
                subst (λ m. Acts m l (n + 1) (add_active (execute (object 2) l))) (omega arith)
                  (post (object 2) (open_handle done))
            | false ↦
                elim (address == 3)
                  as (λ d.
                    Acts (n + (if d then 1 else 0)) l (n + 0) (if d then remove_active l else l)) [
                      | true ↦
                          subst (λ m. Acts (n + 1) l m (remove_active l)) (omega arith)
                            (close_handle done)
                      | false ↦ done
                    ]
          ]

-- The clock shows 20, then goes on.
abbrev clock : ℕ → ℕ
clock k = 20 + k

abbrev loop : Loop
loop = record {
  active = 5;
  timers = record { address = 1; expired_at = 10 } ∷ record { address = 3; expired_at = 30 } ∷ [];
  tasks = object 1 ∷ object 3 ∷ [];
}

-- The round of the first timer and of three tasks: one more was posted; of the handles one was open
-- and is closed, two are open now.
abbrev after : Loop
after = record {
  active = 4;
  timers = record { address = 3; expired_at = 30 } ∷ [];
  tasks = object 2 ∷ [];
}

turn-after : turn handler clock 3 loop ≡ some after
unfolding turn finish_turn run_timers run_tasks run_queue run_task execute add_active remove_active
    subtract_active
turn-after = refl

one_open : Balanced (0 + over_turn handler closes clock 3 loop) loop
unfolding over_turn over_timers over_tasks over_queue run_timers run_task execute add_active
    remove_active subtract_active
one_open = refl

turn-Balanced_example : Balanced (0 + over_turn handler opens clock 3 loop) after
turn-Balanced_example =
    turn-Balanced handler opens closes clock 3 0 loop after handler-IsActing one_open turn-after

abbrev idle : ℕ → Loop → Loop
idle address l = l

turn-ends_example : (l' : Loop) × (turn idle clock 3 loop ≡ some l')
turn-ends_example = turn-ends idle clock 3 loop (λ address k. omega arith) (omega arith)
