-- ===== src/EventLoop/Loop/Active.antt =====
-- The count of active handles is what keeps the loop alive: one for each timer, each posted task
-- and each open handle.
use deprecated_tdk.Prelude.{
  ℕ, ◌+◌, ◌%◌, ◌^◌, ◌≡◌, Bool, true, false, [], ◌∷◌, length, length-append, arith,
}
use deprecated_tdk.EventLoop.Scheduler.Size.{length-insert, length-cancel}
use deprecated_tdk.EventLoop.Scheduler.{TimerTask}
use deprecated_tdk.EventLoop.Loop.{
  Task, schedule_later, cancel_later, Loop, add_active, subtract_active, remove_active, execute,
  schedule, cancel,
}

-- `n` handles and counted calls besides the timers and tasks.
abbrev pub Balanced : ℕ → Loop → Type 0
Balanced n l = l.active ≡ (n + length l.timers + length l.tasks) % 2 ^ 32

-- What the code of a handler may do to the loop that calls it: `n` counts the open handles.
pub data Acts : ℕ → Loop → ℕ → Loop → Type 0 where
  done : {n : ℕ} {l : Loop} → Acts n l n l
  open_handle : {n n' : ℕ} {l l' : Loop} → Acts (n + 1) (add_active l) n' l' → Acts n l n' l'
  close_handle : {n n' : ℕ} {l l' : Loop} → Acts n (remove_active l) n' l' → Acts (n + 1) l n' l'
  post : {n n' : ℕ} {l l' : Loop} (t : Task) → Acts n (execute t l) n' l' → Acts n l n' l'
  set_timer :
      {n n' : ℕ} {l l' : Loop} (inside : Bool) (tt : TimerTask)
      → Acts n (schedule inside tt l) n' l'
      → Acts n l n' l'
  stop_timer :
      {n n' : ℕ} {l l' : Loop} (inside : Bool) (tt : TimerTask)
      → Acts n (cancel inside tt l) n' l'
      → Acts n l n' l'

pub add_active-Balanced : (n : ℕ) (l : Loop) → Balanced n l → Balanced (n + 1) (add_active l)
unfolding add_active
add_active-Balanced n l b = omega (arith, b)

pub remove_active-Balanced : (n : ℕ) (l : Loop) → Balanced (n + 1) l → Balanced n (remove_active l)
unfolding remove_active subtract_active
remove_active-Balanced n l b = omega (arith, b)

pub execute-Balanced : (n : ℕ) (t : Task) (l : Loop) → Balanced n l → Balanced n (execute t l)
unfolding execute add_active
execute-Balanced n t l b = omega (arith, b, length-append l.tasks (t ∷ []))

pub schedule-Balanced :
    (n : ℕ) (inside : Bool) (tt : TimerTask) (l : Loop)
    → Balanced n l
    → Balanced n (schedule inside tt l)
unfolding schedule add_active
schedule-Balanced n true tt l b = omega (arith, b, length-insert tt l.timers)
schedule-Balanced n false tt l b = execute-Balanced n (schedule_later tt) l b

pub cancel-Balanced :
    (n : ℕ) (inside : Bool) (tt : TimerTask) (l : Loop)
    → Balanced n l
    → Balanced n (cancel inside tt l)
unfolding cancel subtract_active
cancel-Balanced n true tt l b = ground (arith, length-cancel tt l.timers)
cancel-Balanced n false tt l b = execute-Balanced n (cancel_later tt) l b

pub Acts-Balanced : (n n' : ℕ) (l l' : Loop) → Acts n l n' l' → Balanced n l → Balanced n' l'
unfolding add_active remove_active subtract_active
Acts-Balanced n n' l l' done b = b
Acts-Balanced n n' l l' (open_handle acts) b =
    Acts-Balanced (n + 1) n' (add_active l) l' acts (omega (arith, b))
Acts-Balanced n n' l l' (close_handle {n = m} acts) b =
    Acts-Balanced m n' (remove_active l) l' acts (omega (arith, b))
Acts-Balanced n n' l l' (post t acts) b =
    Acts-Balanced n n' (execute t l) l' acts (execute-Balanced n t l b)
Acts-Balanced n n' l l' (set_timer inside tt acts) b =
    Acts-Balanced n n' (schedule inside tt l) l' acts (schedule-Balanced n inside tt l b)
Acts-Balanced n n' l l' (stop_timer inside tt acts) b =
    Acts-Balanced n n' (cancel inside tt l) l' acts (cancel-Balanced n inside tt l b)
