-- ===== src/EventLoop/Scheduler/Size.antt =====
-- How many timers there are after `insert` and `cancel`.
use deprecated_tdk.Prelude.{suc, ◌+◌, ◌≡◌, refl, if◌then◌else◌, List, [], ◌∷◌, length, arith}
use deprecated_tdk.EventLoop.Scheduler.{TimerTask, insert, cancel}

pub length-insert :
    (new : TimerTask) (timers : List TimerTask) → length (insert new timers) ≡ suc (length timers)
unfolding insert
length-insert new [] = refl
length-insert new (t ∷ timers) = ground (arith, length-insert new timers)

pub length-cancel :
    (tt : TimerTask) (timers : List TimerTask)
    → let (found, rest) = cancel tt timers in length timers ≡ (if found then 1 else 0) + length rest
unfolding cancel
length-cancel tt [] = omega arith
length-cancel tt (t ∷ timers) = ground (arith, length-cancel tt timers)
