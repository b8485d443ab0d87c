-- ===== src/Time.antt =====
-- src/tdk/time: the calendar, and spans and points of time in microseconds.
pub mod Calendar
pub mod Span
pub mod Date
