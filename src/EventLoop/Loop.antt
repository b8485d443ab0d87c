-- ===== src/EventLoop/Loop.antt =====
-- src/tdk/event_loop/event_loop.cpp: the count of active handles, the timers and the posted tasks.
-- The lock makes each call one step. `handler` is what the call of a task or timer does to the
-- loop, by the address of its object; the wait for input and output is not modelled.
pub mod Active
pub mod Weighed
pub mod Turn
mod Tests
use deprecated_tdk.Prelude.{
  ℕ, zero, suc, ◌+◌, ◌-◌, ◌%◌, ◌^◌, Bool, true, false, Option, none, some, List, [], ◌∷◌, ◌++◌, leb,
  ◌==◌, if◌then◌else◌,
}
use deprecated_tdk.EventLoop.Scheduler
use deprecated_tdk.EventLoop.Scheduler.{TimerTask, insert}

-- A task is an object with a handler, or one of the closures that `schedule` and `cancel` post
-- when another thread calls them.
pub data Task : Type 0 where
  object : ℕ → Task
  schedule_later cancel_later : TimerTask → Task

-- `_active_handles`, a `std::atomic<int>` as a 32-bit pattern, `_scheduler` and `_tasks`.
pub record Loop : Type 0 where
  pub active : ℕ
  pub timers : List TimerTask
  pub tasks : List Task

unfoldable pub add_active : Loop → Loop
add_active l = record l { active = (l.active + 1) % 2 ^ 32 }

-- `fetch_sub( cnt )`
unfoldable pub subtract_active : ℕ → Loop → Loop
subtract_active cnt l = record l { active = (l.active + (2 ^ 32 - cnt % 2 ^ 32)) % 2 ^ 32 }

unfoldable pub remove_active : Loop → Loop
unfolding subtract_active
remove_active l = subtract_active 1 l

unfoldable pub execute : Task → Loop → Loop
unfolding add_active
execute t l = let l' = add_active l in record l' { tasks = l'.tasks ++ (t ∷ []) }

-- `schedule( timer_task* )`, in the thread of the loop or not.
pub schedule : Bool → TimerTask → Loop → Loop
unfolding add_active execute
schedule true tt l = add_active (record l { timers = insert tt l.timers })
schedule false tt l = execute (schedule_later tt) l

pub cancel : Bool → TimerTask → Loop → Loop
unfolding execute subtract_active
cancel true tt l =
    let (found, timers) = Scheduler.cancel tt l.timers in
    let l' = record l { timers = timers } in if found then subtract_active 1 l' else l'
cancel false tt l = execute (cancel_later tt) l

-- `(*t)()`
pub run_task : (ℕ → Loop → Loop) → Task → Loop → Loop
unfolding schedule cancel
run_task handler (object address) l = handler address l
run_task handler (schedule_later tt) l = schedule true tt l
run_task handler (cancel_later tt) l = cancel true tt l

-- The second loop of `_run_tasks`, over the tasks that were taken: the loop, and the count.
pub run_queue : (ℕ → Loop → Loop) → List Task → Loop → Loop × ℕ
unfolding run_task
run_queue handler [] l = (l, 0)
run_queue handler (t ∷ queue) l =
    let (l', cnt) = run_queue handler queue (run_task handler t l) in (l', cnt + 1)

pub run_tasks : (ℕ → Loop → Loop) → Loop → Loop × ℕ
unfolding run_queue
run_tasks handler l = run_queue handler l.tasks (record l { tasks = [] })

-- One more call is counted.
abbrev pub counted : Option (Loop × ℕ) → Option (Loop × ℕ)
counted none = none
counted (some (l, cnt)) = some (l, cnt + 1)

-- `_scheduler.schedule()`; the clock is read for each timer, `now k` is the k-th reading. A handler
-- may set timers that have expired already, without end: out of fuel is `none`.
pub run_timers : (ℕ → Loop → Loop) → (ℕ → ℕ) → ℕ → ℕ → Loop → Option (Loop × ℕ)
run_timers handler now k zero l = none
run_timers handler now k (suc fuel) l = elim l.timers [
  | [] ↦ some (l, 0)
  | t ∷ timers ↦ elim (leb t.expired_at (now k)) [
    | false ↦ some (l, 0)
    | true ↦
        counted
          (run_timers handler now (k + 1) fuel (handler t.address (record l { timers = timers })))
  ]
]

-- The rest of a round of the loop in `run`, after the timers.
pub finish_turn : (ℕ → Loop → Loop) → Option (Loop × ℕ) → Option Loop
unfolding run_tasks subtract_active
finish_turn handler none = none
finish_turn handler (some (l, cnt)) =
    let (l', more) = run_tasks handler l in some (subtract_active (cnt + more) l')

-- One round of the loop in `run`; `now` is the clock from its first reading on.
pub turn : (ℕ → Loop → Loop) → (ℕ → ℕ) → ℕ → Loop → Option Loop
unfolding run_timers finish_turn
turn handler now fuel l = finish_turn handler (run_timers handler now 0 fuel l)
