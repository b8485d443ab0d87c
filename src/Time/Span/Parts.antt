-- ===== src/Time/Span/Parts.antt =====
-- The parts of a span, and a span from its parts.
use deprecated_tdk.Prelude.{ℕ, ◌+◌, ◌*◌, ◌/◌, ◌%◌, ◌^◌, ◌<◌, ◌≡◌, arith}
use deprecated_tdk.Time.Span.{
  TimeSpan, of_milli_seconds, from_seconds, days, hours, minutes, seconds, milli_seconds,
  micro_seconds, total_days, total_hours, total_minutes, total_seconds, total_milli_seconds,
  to_timeval, negate,
}

-- The parts without the sign.
module _ (s : TimeSpan) (small : s.delta < 2 ^ 63) where
  days_lem : days s ≡ s.delta / 86_400_000_000
  unfolding days total_days
  days_lem = ground arith

  hours_lem : hours s ≡ s.delta / 3_600_000_000 % 24
  unfolding hours total_hours
  hours_lem = ground arith

  minutes_lem : minutes s ≡ s.delta / 60_000_000 % 60
  unfolding minutes total_minutes
  minutes_lem = ground arith

  seconds_lem : seconds s ≡ s.delta / 1_000_000 % 60
  unfolding seconds total_seconds
  seconds_lem = ground arith

  milli_seconds_lem : milli_seconds s ≡ s.delta / 1000 % 1000
  unfolding milli_seconds total_milli_seconds
  milli_seconds_lem = ground arith

  micro_seconds_lem : micro_seconds s ≡ s.delta % 1000
  unfolding micro_seconds
  micro_seconds_lem = ground arith

-- The parts of a span that is not negative add up to it.
pub parts-delta :
    (s : TimeSpan)
    → s.delta < 2 ^ 63
    → ((((days s * 24 + hours s) * 60 + minutes s) * 60 + seconds s) * 1000 + milli_seconds s)
          * 1000
        + micro_seconds s
      ≡ s.delta
parts-delta s small = omega (
  arith,
  days_lem s small,
  hours_lem s small,
  minutes_lem s small,
  seconds_lem s small,
  milli_seconds_lem s small,
  micro_seconds_lem s small,
)

-- A span that was built from parts below their units has these parts.
pub parts-of_milli_seconds :
    (d h m s ms : ℕ)
    → d < 106_751_991
    → h < 24
    → m < 60
    → s < 60
    → ms < 1000
    → let span = of_milli_seconds d h m s ms in
      (days span ≡ d)
      × (hours span ≡ h)
      × (minutes span ≡ m)
      × (seconds span ≡ s)
      × (milli_seconds span ≡ ms)
      × (micro_seconds span ≡ 0)
unfolding of_milli_seconds days hours minutes seconds milli_seconds micro_seconds total_days
    total_hours total_minutes total_seconds total_milli_seconds
parts-of_milli_seconds d h m s ms hd hh hm hs hms = ground arith

-- Seconds and microseconds of a `timeval` are the span, if that is not negative and the seconds
-- fit in an `int`.
pub to_timeval_lem :
    (s : TimeSpan)
    → s.delta < 2_147_483_648_000_000
    → ((to_timeval s).tv_sec * 1_000_000 + (to_timeval s).tv_usec ≡ s.delta)
      × ((to_timeval s).tv_usec < 1_000_000)
unfolding to_timeval total_seconds
to_timeval_lem s small = ground arith

-- The remainder of a negative span is taken without its sign: a negative number of whole seconds
-- has 551616 microseconds left.
pub to_timeval-negate :
    (m : ℕ) → 0 < m → m < 2 ^ 31 → (to_timeval (negate (from_seconds m))).tv_usec ≡ 551_616
unfolding to_timeval total_seconds negate from_seconds
to_timeval-negate m pos small = omega arith
