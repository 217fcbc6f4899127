-- ===== src/Calendar/Civil.antt =====
-- The standard library's `date` over ordinals: day 1 is 0001-01-01, and `weekday()` is
-- `(toordinal() + 6) % 7` with Monday 0.
use quantic_mosaic.Prelude.{
  ℕ, zero, suc, ◌+◌, ◌-◌, ◌*◌, ◌/◌, ◌%◌, ◌≡◌, refl, Bool, ◌&&◌, ◌||◌, not, ◌==◌, ltb, if◌then◌else◌,
}

-- A `datetime.date`, as its `toordinal()`.
abbrev pub Date : Type 0
Date = ℕ

pub record Civil : Type 0 where
  pub year : ℕ
  pub month : ℕ
  pub day : ℕ

unfoldable pub weekday : Date → ℕ
weekday d = (d + 6) % 7

unfoldable pub is_leap : ℕ → Bool
is_leap y = (y % 4 == 0) && (not (y % 100 == 0) || (y % 400 == 0))

unfoldable pub days_in_month : ℕ → ℕ → ℕ
unfolding is_leap
days_in_month y m =
    if (m == 11) || ((m == 4) || ((m == 9) || (m == 6)))
    then 30
    else if not (m == 2)
    then 31
    else if is_leap y
    then 29
    else 28

unfoldable pub days_before_year : ℕ → ℕ
days_before_year y = let p = y - 1 in p * 365 + p / 4 - p / 100 + p / 400

-- The days of the months before month `suc m`.
unfoldable pub days_before_month : ℕ → ℕ → ℕ
unfolding days_in_month
days_before_month y zero = 0
days_before_month y (suc m) = days_before_month y m + days_in_month y (suc m)

unfoldable pub ordinal : ℕ → ℕ → ℕ → Date
unfolding days_before_year days_before_month
ordinal y m d = days_before_year y + days_before_month y (m - 1) + d

-- The month that day `n` (from 0) of the year falls in, and the day of that month.
unfoldable pub month_of : ℕ → ℕ → ℕ → ℕ → Civil
unfolding days_in_month
month_of zero y m n = record { year = y; month = m; day = n + 1 }
month_of (suc left) y m n =
    let later = month_of left y (m + 1) (n - days_in_month y m) in
    if ltb n (days_in_month y m) then record { year = y; month = m; day = n + 1 } else later

-- `date.fromordinal`: 400-, 100-, 4- and 1-year cycles, then the months.
unfoldable pub civil : Date → Civil
unfolding month_of
civil d =
    let n = d - 1 in
    let n400 = n / 146097 in
    let r400 = n % 146097 in
    let n100 = r400 / 36524 in
    let r100 = r400 % 36524 in
    let n4 = r100 / 1461 in
    let r4 = r100 % 1461 in
    let n1 = r4 / 365 in
    let year = n400 * 400 + n100 * 100 + n4 * 4 + n1 + 1 in
    if (n1 == 4) || (n100 == 4)
    then record { year = year - 1; month = 12; day = 31 }
    else month_of 11 year 1 (r4 % 365)

berlin_day : civil (ordinal 2026 9 29) ≡ record { year = 2026; month = 9; day = 29 }
unfolding civil ordinal
berlin_day = refl

berlin_weekday : weekday (ordinal 2026 9 29) ≡ 1
unfolding weekday ordinal
berlin_weekday = refl

leap_day : civil (ordinal 2028 2 29) ≡ record { year = 2028; month = 2; day = 29 }
unfolding civil ordinal
leap_day = refl
