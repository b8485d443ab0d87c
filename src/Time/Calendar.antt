-- ===== src/Time/Calendar.antt =====
-- src/tdk/time/ctime.cpp: leap years, day counts, and the two conversions between seconds since
-- 1970 and a `tm`. Years are natural numbers; a signed overflow is undefined, hence `none`.
pub mod Years
pub mod Months
pub mod RoundTrip
mod Tests
use deprecated_tdk.Prelude.{
  ℕ, zero, suc, ◌+◌, ◌-◌, ◌*◌, ◌/◌, ◌%◌, ◌^◌, Bool, true, false, Option, none, some, List, [], ◌∷◌,
  take, get_or, ltb, ◌==◌, if◌then◌else◌,
}

-- `struct tm`; `tm_isdst` is 0.
pub record Tm : Type 0 where
  pub sec : ℕ
  pub min : ℕ
  pub hour : ℕ
  pub mday : ℕ
  pub mon : ℕ
  pub year : ℕ
  pub wday : ℕ
  pub yday : ℕ

-- The two rows of `DAY_PER_MONTH_TABLE`.
abbrev pub common_months : List ℕ
common_months = 31 ∷ 28 ∷ 31 ∷ 30 ∷ 31 ∷ 30 ∷ 31 ∷ 31 ∷ 30 ∷ 31 ∷ 30 ∷ 31 ∷ []

abbrev pub leap_months : List ℕ
leap_months = 31 ∷ 29 ∷ 31 ∷ 30 ∷ 31 ∷ 30 ∷ 31 ∷ 31 ∷ 30 ∷ 31 ∷ 30 ∷ 31 ∷ []

pub isleapyear : ℕ → Bool
isleapyear year =
    if year % 4 == 0
    then (if year % 100 == 0 then (if year % 400 == 0 then true else false) else true)
    else false

pub months : ℕ → List ℕ
months year = if isleapyear year then leap_months else common_months

-- `daycount( year )`
pub daycount : ℕ → ℕ
daycount year = if isleapyear year then 366 else 365

-- The loop of `daycount( startYear , endYear )` over `n` years.
pub days_of_years : ℕ → ℕ → ℕ
days_of_years year zero = 0
days_of_years year (suc n) = daycount year + days_of_years (year + 1) n

pub daycount_between : ℕ → ℕ → ℕ
daycount_between start_year end_year = days_of_years start_year (end_year + 1 - start_year)

-- The sum over the first months of a year, in the loop of `daycount( year , month , day )`.
pub sum : List ℕ → ℕ
sum [] = 0
sum (days ∷ rows) = days + sum rows

pub daycount_date : ℕ → ℕ → ℕ → ℕ
unfolding sum months
daycount_date year month day = sum (take (month - 1) (months year)) + day

-- `int * int` for a product that is not negative
abbrev pub int_product : ℕ → ℕ → Option ℕ
int_product a b = if ltb (a * b) (2 ^ 31) then some (a * b) else none

-- `convert( const tm& )`
pub to_seconds : Tm → Option ℕ
unfolding daycount_between
to_seconds tm = elim (int_product (daycount_between 1970 (tm.year + 1900 - 1)) (60 * 60 * 24)) [
  | none ↦ none
  | some years ↦ some (tm.sec + tm.min * 60 + tm.hour * 60 * 60 + tm.yday * 60 * 60 * 24 + years)
]

-- The first `for (;;)` of `convert( const time_t& )`: the year, and the day in it.
pub find_year : ℕ → ℕ → ℕ → ℕ × ℕ
find_year zero year days = (year, days)
find_year (suc fuel) year days = elim (ltb days (daycount year)) [
  | true ↦ (year, days)
  | false ↦ find_year fuel (year + 1) (days - daycount year)
]

-- The second one: the month, and the day in it. The rows that are left are the list.
pub find_month : ℕ → ℕ → List ℕ → ℕ × ℕ
find_month month days [] = (month, days)
find_month month days (row ∷ rows) = elim (ltb days row) [
  | true ↦ (month, days)
  | false ↦ find_month (month + 1) (days - row) rows
]

-- `convert( const time_t& )`, at a time of less than 2 ^ 31 days. As many rounds as there are days
-- are enough.
pub to_tm : ℕ → Tm
unfolding find_year find_month months
to_tm t =
    let days = t / (60 * 60 * 24) in
    let (year, yday) = find_year (suc days) 1970 days in
    let (mon, day) = find_month 0 yday (months year) in
    record {
      sec = t % 60;
      min = t % (60 * 60) / 60;
      hour = t % (60 * 60 * 24) / (60 * 60);
      mday = day + 1;
      mon = mon;
      year = year - 1900;
      wday = (t / (60 * 60 * 24) + 4) % 7;
      yday = yday;
    }
