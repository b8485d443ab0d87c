-- ===== src/Time/Date/Fields.antt =====
-- A date is found again from its fields, and differences from sums.
use deprecated_tdk.Prelude.{◌+◌, ◌-◌, ◌/◌, ◌%◌, ◌^◌, ◌<◌, ◌≡◌, arith}
use deprecated_tdk.Time.Calendar.{to_tm}
use deprecated_tdk.Time.Calendar.RoundTrip.{to_tm-IsTime, daycount_date-before}
use deprecated_tdk.Time.Span.{
  TimeSpan, add, from_seconds, from_minutes, from_hours, from_days, from_micro_seconds,
}
use deprecated_tdk.Time.Date.{
  DateTime, of_fields, plus, minus, difference, year, month, day, hour, minute, second, tick_to_tm,
}

-- The date that is built from the fields of a point of time below 2 ^ 60, past the year 36000, is
-- that point, less the microseconds behind its last whole second.
pub of_fields-fields :
    (t : DateTime)
    → t.time < 2 ^ 60
    → (of_fields (year t) (month t) (day t) (hour t) (minute t) (second t)).time
      ≡ t.time - t.time % 1_000_000
unfolding of_fields year month day hour minute second tick_to_tm from_seconds from_minutes
    from_hours from_days add
of_fields-fields t small =
    let tm = to_tm (t.time / 1_000_000) in
    let (sec, min, hour, mon, some_day, in_month, yday, days, time) =
      to_tm-IsTime (t.time / 1_000_000) in
    omega (
      arith,
      some_day,
      yday,
      days,
      time,
      daycount_date-before (tm.year + 1900) (tm.mon + 1) tm.mday some_day,
    )

-- A span that is added is the difference, and the difference leads back.
pub difference-plus :
    (t u : DateTime) (s : TimeSpan)
    → t.time < 2 ^ 64
    → u.time < 2 ^ 64
    → s.delta < 2 ^ 64
    → ((difference (plus t s) t).delta ≡ s.delta)
      × ((plus t (difference u t)).time ≡ u.time)
      × ((minus (plus t s) s).time ≡ t.time)
unfolding plus minus difference from_micro_seconds
difference-plus t u s ht hu hs = ground arith
