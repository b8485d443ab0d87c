-- ===== src/EventLoop/Scheduler.antt =====
-- src/tdk/event_loop/scheduler.cpp: the list of timers. A timer is the address of its object and
-- the microsecond that it waits for. `now k` is what the clock shows when it is read for the k-th
-- time.
pub mod Sorted
pub mod Size
use deprecated_tdk.Prelude.{
  ℕ, ◌+◌, ◌-◌, Bool, true, false, List, [], ◌∷◌, ltb, leb, ◌==◌, if◌then◌else◌,
}

pub record TimerTask : Type 0 where
  pub address : ℕ
  pub expired_at : ℕ

-- `schedule( timer_task* )`: `std::upper_bound` gives the first timer that waits for longer.
pub insert : TimerTask → List TimerTask → List TimerTask
insert tt [] = tt ∷ []
insert tt (t ∷ timers) =
    let later = insert tt timers in
    if ltb tt.expired_at t.expired_at then tt ∷ t ∷ timers else t ∷ later

-- `cancel( timer_task* )`: whether the timer was in the list, and the list without it.
pub cancel : TimerTask → List TimerTask → Bool × List TimerTask
cancel tt [] = (false, [])
cancel tt (t ∷ timers) =
    let (found, rest) = cancel tt timers in
    if t.address == tt.address then (true, timers) else (found, t ∷ rest)

-- `schedule( slist_queue& expireds )`: the expired timers in order, and those that stay.
pub take_expired : (ℕ → ℕ) → ℕ → List TimerTask → List TimerTask × List TimerTask
take_expired now k [] = ([], [])
take_expired now k (t ∷ timers) =
    let (expireds, rest) = take_expired now (k + 1) timers in
    if leb t.expired_at (now k) then (t ∷ expireds, rest) else ([], t ∷ timers)

-- `schedule_after()`: microseconds to wait.
pub schedule_after : ℕ → List TimerTask → ℕ
schedule_after now [] = 100_000_000
schedule_after now (t ∷ timers) = if ltb t.expired_at now then 0 else t.expired_at - now
