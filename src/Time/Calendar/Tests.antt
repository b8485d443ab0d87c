-- ===== src/Time/Calendar/Tests.antt =====
-- Dates.
use deprecated_tdk.Prelude.{ℕ, ◌≡◌, refl, some, arith}
use deprecated_tdk.Time.Calendar.{
  Tm, to_seconds, to_tm, find_year, find_month, daycount, isleapyear, months,
}
use deprecated_tdk.Time.Calendar.RoundTrip.{to_seconds-to_tm}

-- 29 February 2000, 12:34:56
abbrev leap_day : ℕ
leap_day = 951_827_696

abbrev leap_tm : Tm
leap_tm = record {
  sec = 56;
  min = 34;
  hour = 12;
  mday = 29;
  mon = 1;
  year = 100;
  wday = 2;
  yday = 59;
}

to_tm_leap : to_tm leap_day ≡ leap_tm
unfolding to_tm find_year find_month daycount isleapyear months
to_tm_leap = refl

to_seconds-to_tm_example : to_seconds (to_tm leap_day) ≡ some leap_day
to_seconds-to_tm_example = to_seconds-to_tm leap_day (omega arith)

-- 1 January 2039
abbrev late_tm : Tm
late_tm = record { sec = 0; min = 0; hour = 0; mday = 1; mon = 0; year = 139; wday = 6; yday = 0 }
