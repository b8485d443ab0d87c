-- ===== src/Time/Calendar/Months.antt =====
-- The search for the month of a day of the year.
use deprecated_tdk.Prelude.{
  ℕ, suc, ◌+◌, ◌-◌, ◌≤◌, ◌<◌, ◌≡◌, ◌∙◌, refl, ap, List, [], ◌∷◌, take, get_or, length, Bool-cases,
  inl, inr, ltb, true, false, arith,
}
use deprecated_tdk.Time.Calendar.{find_month, sum}

find_month-inside :
    (month days row : ℕ) (rows : List ℕ)
    → ltb days row ≡ true
    → find_month month days (row ∷ rows) ≡ (month, days)
unfolding find_month
find_month-inside month days row rows e = rw (find_month, e) refl

find_month-outside :
    (month days row : ℕ) (rows : List ℕ)
    → ltb days row ≡ false
    → find_month month days (row ∷ rows) ≡ find_month (month + 1) (days - row) rows
unfolding find_month
find_month-outside month days row rows e = rw (find_month, e) refl

same_month : (month : ℕ) → month ≡ month + 0
same_month month = omega arith

-- The search stops at the row that the day falls in, which is one of the table.
pub find_month_lem :
    (month days : ℕ) (rows : List ℕ)
    → days < sum rows
    → (n day : ℕ) × (find_month month days rows ≡ (month + n, day))
      × (days ≡ sum (take n rows) + day)
      × (day < get_or rows n 0)
      × (n < length rows)
unfolding sum
find_month_lem month days [] h = absurd (omega arith)
find_month_lem month days (row ∷ rows) h = elim (Bool-cases (ltb days row)) [
  | inl inside ↦ (
    0,
    days,
    find_month-inside month days row rows inside ∙ ap (λ m. (m, days)) (same_month month),
    omega arith,
    ground arith,
    omega arith,
  )
  | inr outside ↦
      let more : row ≤ days = ground arith in
      let (n, day, found, total, small, within) =
        find_month_lem (month + 1) (days - row) rows (omega (arith, more)) in
      let next : month + 1 + n ≡ month + suc n = omega arith in
      (
        suc n,
        day,
        find_month-outside month days row rows outside ∙ found ∙ ap (λ m. (m, day)) next,
        omega (arith, total, more),
        small,
        omega (arith, within),
      )
]
