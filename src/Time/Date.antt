-- ===== src/Time/Date.antt =====
-- src/tdk/time/date_time.cpp, and the conversions of tick.cpp that it is made of: a point of time
-- in microseconds since 1970, a `uint64_t`. Reading the clock is not modelled.
pub mod Fields
mod Tests
use deprecated_tdk.Prelude.{
  ℕ, ◌+◌, ◌-◌, ◌*◌, ◌/◌, ◌%◌, ◌^◌, Bool, Option, none, some, List, [], ◌∷◌, ltb, ◌==◌,
  if◌then◌else◌,
}
use deprecated_tdk.Time.Calendar.{Tm, daycount_between, daycount_date, to_tm}
use deprecated_tdk.Time.Span.{
  TimeSpan, Timeval, from_seconds, from_minutes, from_hours, from_days, from_micro_seconds, add,
}

pub record DateTime : Type 0 where
  pub time : ℕ

-- The constructor with a date and a time of day.
pub of_fields : ℕ → ℕ → ℕ → ℕ → ℕ → ℕ → DateTime
of_fields year month day hour minute second =
    let span = from_seconds second in
    let span₁ = add span (from_minutes minute) in
    let span₂ = add span₁ (from_hours hour) in
    let span₃ = add span₂ (from_days (daycount_between 1970 (year - 1))) in
    let span₄ = add span₃ (from_days (daycount_date year month (day - 1))) in
    record { time = span₄.delta }

pub time_to_milli_seconds : DateTime → ℕ
time_to_milli_seconds t = t.time / 1000

-- The operators; a span is added as a `uint64_t`.
pub is_before : DateTime → DateTime → Bool
is_before t rhs = ltb t.time rhs.time

pub plus : DateTime → TimeSpan → DateTime
plus t rhs = record { time = (t.time + rhs.delta) % 2 ^ 64 }

pub minus : DateTime → TimeSpan → DateTime
minus t rhs = record { time = (t.time + (2 ^ 64 - rhs.delta)) % 2 ^ 64 }

pub difference : DateTime → DateTime → TimeSpan
difference t rhs = from_micro_seconds ((t.time + (2 ^ 64 - rhs.time)) % 2 ^ 64)

-- `tick::to_tm`
pub tick_to_tm : ℕ → Tm
tick_to_tm v = to_tm (v / 1_000_000)

-- The fields.
pub year : DateTime → ℕ
unfolding tick_to_tm
year t = (tick_to_tm t.time).year + 1900

pub month : DateTime → ℕ
unfolding tick_to_tm
month t = (tick_to_tm t.time).mon + 1

pub day : DateTime → ℕ
unfolding tick_to_tm
day t = (tick_to_tm t.time).mday

pub hour : DateTime → ℕ
unfolding tick_to_tm
hour t = (tick_to_tm t.time).hour

pub minute : DateTime → ℕ
unfolding tick_to_tm
minute t = (tick_to_tm t.time).min

pub second : DateTime → ℕ
unfolding tick_to_tm
second t = (tick_to_tm t.time).sec

-- `tick::to_timeval` and `tick::from( timeval )`, at a `long` of 64 bits
pub tick_to_timeval : ℕ → Timeval
tick_to_timeval v = record { tv_sec = v / 1_000_000; tv_usec = v % 1_000_000 }

pub tick_from_timeval : Timeval → ℕ
tick_from_timeval tv = (tv.tv_sec * 1_000_000 + tv.tv_usec) % 2 ^ 64
