-- ===== src/EventLoop.antt =====
-- src/tdk/event_loop: the timers, and the loop that runs them and the posted tasks.
pub mod Scheduler
pub mod Loop
