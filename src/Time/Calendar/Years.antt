-- ===== src/Time/Calendar/Years.antt =====
-- The search for the year of a day, and how many days years have.
use mathlib.Core.Path.{subst}
use deprecated_tdk.Prelude.{
  ℕ, zero, suc, ◌+◌, ◌-◌, ◌*◌, ◌≤◌, ◌<◌, ◌≡◌, ◌∙◌, refl, ap, Bool-cases, inl, inr, ltb, true, false,
  arith,
}
use deprecated_tdk.Time.Calendar.{daycount, days_of_years, find_year}

pub daycount_bounds : (year : ℕ) → (365 ≤ daycount year) × (daycount year ≤ 366)
unfolding daycount
daycount_bounds year = ground arith

pub days_of_years-le : (n year : ℕ) → n * 365 ≤ days_of_years year n
unfolding days_of_years
days_of_years-le zero year = omega arith
days_of_years-le (suc n) year =
    omega (arith, days_of_years-le n (year + 1), (daycount_bounds year).0)

find_year-inside :
    (fuel year days : ℕ)
    → ltb days (daycount year) ≡ true
    → find_year (suc fuel) year days ≡ (year, days)
unfolding find_year
find_year-inside fuel year days e = rw (find_year, e) refl

find_year-outside :
    (fuel year days : ℕ)
    → ltb days (daycount year) ≡ false
    → find_year (suc fuel) year days ≡ find_year fuel (year + 1) (days - daycount year)
unfolding find_year
find_year-outside fuel year days e = rw (find_year, e) refl

-- The search stops in the year that the day falls in.
pub find_year_lem :
    (fuel year days : ℕ)
    → days < fuel
    → (n day : ℕ) × (find_year fuel year days ≡ (year + n, day))
      × (days ≡ days_of_years year n + day)
      × (day < daycount (year + n))
unfolding days_of_years
find_year_lem zero year days h = absurd (omega arith)
find_year_lem (suc fuel) year days h = elim (Bool-cases (ltb days (daycount year))) [
  | inl inside ↦
      let less : days < daycount year = ground arith in
      let same : year ≡ year + 0 = omega arith in
      (
        0,
        days,
        find_year-inside fuel year days inside ∙ ap (λ y. (y, days)) same,
        omega arith,
        subst (λ y. days < daycount y) same less,
      )
  | inr outside ↦
      let more : daycount year ≤ days = ground arith in
      let (n, day, found, sum, small) =
        find_year_lem fuel (year + 1) (days - daycount year)
          (omega (arith, more, daycount_bounds year)) in
      let next : year + 1 + n ≡ year + suc n = omega arith in
      (
        suc n,
        day,
        find_year-outside fuel year days outside ∙ found ∙ ap (λ y. (y, day)) next,
        omega (arith, sum, more),
        subst (λ y. day < daycount y) next small,
      )
]
