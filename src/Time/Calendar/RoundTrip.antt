-- ===== src/Time/Calendar/RoundTrip.antt =====
-- The two conversions against each other, and where the second one overflows.
use mathlib.Core.Path.{subst}
use deprecated_tdk.Prelude.{
  ℕ, suc, ◌+◌, ◌-◌, ◌*◌, ◌/◌, ◌%◌, ◌^◌, ◌≤◌, ◌<◌, ◌≡◌, ◌∙◌, sym, ap, none, some, take, get_or,
  length, arith,
}
use deprecated_tdk.Time.Calendar.{
  Tm, months, daycount, sum, days_of_years, daycount_between, daycount_date, to_seconds, to_tm,
  find_month,
}
use deprecated_tdk.Time.Calendar.Years.{find_year_lem, days_of_years-le}
use deprecated_tdk.Time.Calendar.Months.{find_month_lem}

sum-months : (year : ℕ) → sum (months year) ≡ daycount year
unfolding sum months daycount
sum-months year = ground arith

length-months : (year : ℕ) → length (months year) ≡ 12
unfolding months
length-months year = ground arith

abbrev built : ℕ → ℕ × ℕ → ℕ × ℕ → Tm
built t (year, yday) (mon, day) = record {
  sec = t % 60;
  min = t % (60 * 60) / 60;
  hour = t % (60 * 60 * 24) / (60 * 60);
  mday = day + 1;
  mon = mon;
  year = year - 1900;
  wday = (t / (60 * 60 * 24) + 4) % 7;
  yday = yday;
}

-- What `to_tm` finds.
record Found (t n yday mon day : ℕ) : Type 0 where
  result : to_tm t ≡ built t (1970 + n, yday) (mon, day)
  days : t / (60 * 60 * 24) ≡ days_of_years 1970 n + yday
  in_year : yday < daycount (1970 + n)
  date : yday ≡ sum (take mon (months (1970 + n))) + day
  in_month : day < get_or (months (1970 + n)) mon 0
  month : mon < 12

to_tm-Found : (t : ℕ) → (n yday mon day : ℕ) × Found t n yday mon day
unfolding to_tm
to_tm-Found t =
    let days = t / (60 * 60 * 24) in
    let (n, yday, found, total, in_year) = find_year_lem (suc days) 1970 days (omega arith) in
    let (mon, day, at, date, in_month, month) =
      find_month_lem 0 yday (months (1970 + n)) (omega (arith, in_year, sum-months (1970 + n))) in
    (
      n,
      yday,
      mon,
      day,
      record {
        result =
            ap (λ r. built t r (find_month 0 r.1 (months r.0))) found
            ∙ ap (built t (1970 + n, yday)) (at ∙ ap (λ m. (m, day)) (omega arith));
        days = total;
        in_year = in_year;
        date = date;
        in_month = in_month;
        month = omega (arith, month, length-months (1970 + n));
      },
    )

between-year : (n : ℕ) → daycount_between 1970 (1970 + n - 1900 + 1900 - 1) ≡ days_of_years 1970 n
unfolding daycount_between
between-year n = ap (days_of_years 1970) (omega arith)

to_seconds-fits :
    (tm : Tm) (days : ℕ)
    → daycount_between 1970 (tm.year + 1900 - 1) ≡ days
    → days * (60 * 60 * 24) < 2 ^ 31
    → to_seconds tm
      ≡ some (
          tm.sec + tm.min * 60 + tm.hour * 60 * 60 + tm.yday * 60 * 60 * 24 + days * (60 * 60 * 24))
unfolding to_seconds
to_seconds-fits tm days e small = ground arith

-- `convert( convert( t ) )` is `t` again, at each time of less than 2 ^ 31 seconds.
pub to_seconds-to_tm : (t : ℕ) → t < 2 ^ 31 → to_seconds (to_tm t) ≡ some t
to_seconds-to_tm t small =
    let (n, yday, mon, day, f) = to_tm-Found t in
    ap to_seconds f.result
    ∙ to_seconds-fits (built t (1970 + n, yday) (mon, day)) (days_of_years 1970 n) (between-year n)
        (omega (arith, f.days, small))
    ∙ ap some (omega (arith, f.days))

-- What `to_tm_lem` says of a `tm`.
abbrev pub IsTime : ℕ → Tm → Type 0
IsTime t tm =
    let year = tm.year + 1900 in
    (tm.sec < 60)
    × (tm.min < 60)
    × (tm.hour < 24)
    × (tm.mon < 12)
    × (0 < tm.mday)
    × (tm.mday ≤ get_or (months year) tm.mon 0)
    × (daycount_date year (tm.mon + 1) tm.mday ≡ tm.yday + 1)
    × (daycount_between 1970 (year - 1) + tm.yday ≡ t / (60 * 60 * 24))
    × (tm.sec + tm.min * 60 + tm.hour * 60 * 60 ≡ t % (60 * 60 * 24))

built-IsTime :
    (t n yday mon day : ℕ) → Found t n yday mon day → IsTime t (built t (1970 + n, yday) (mon, day))
unfolding daycount_date
built-IsTime t n yday mon day f =
    let year : 1970 + n ≡ 1970 + n - 1900 + 1900 = omega arith in
    let month : mon ≡ mon + 1 - 1 = omega arith in
    let date : yday ≡ sum (take (mon + 1 - 1) (months (1970 + n - 1900 + 1900))) + day =
      f.date
      ∙ ap (λ y. sum (take mon (months y)) + day) year
      ∙ ap (λ k. sum (take k (months (1970 + n - 1900 + 1900))) + day) month in
    (
      omega arith,
      omega arith,
      omega arith,
      f.month,
      omega arith,
      omega (arith, f.in_month, ap (λ y. get_or (months y) mon 0) year),
      omega (arith, date),
      omega (arith, f.days, between-year n),
      omega arith,
    )

pub daycount_date-before :
    (year month day : ℕ)
    → 0 < day
    → daycount_date year month day ≡ daycount_date year month (day - 1) + 1
unfolding daycount_date
daycount_date-before year month day some_day = omega arith

-- The fields of a `tm` are a time of day and a date of the calendar: the day is one of the month,
-- the days before it in the year are `tm_yday`, and with those of the years before and the time of
-- day, all the time.
pub to_tm-IsTime : (t : ℕ) → IsTime t (to_tm t)
to_tm-IsTime t =
    let (n, yday, mon, day, f) = to_tm-Found t in
    subst (IsTime t) (sym f.result) (built-IsTime t n yday mon day f)

-- From 2039 on the product of the days and the seconds of a day does not fit in an `int`.
pub to_seconds-overflow : (tm : Tm) → 139 ≤ tm.year → to_seconds tm ≡ none
unfolding to_seconds daycount_between
to_seconds-overflow tm late =
    let years = tm.year + 1900 - 1 + 1 - 1970 in
    let large : 2 ^ 31 ≤ days_of_years 1970 years * (60 * 60 * 24) =
      omega (arith, days_of_years-le years 1970, late) in
    ground (arith, large)
