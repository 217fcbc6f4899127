-- ===== src/Calendar/Business/Count.antt =====
-- The business-day counts: bounds, splitting, whole weeks, and how the two walks differ.
use quantic_mosaic.Prelude.{
  ℕ, zero, suc, ◌+◌, ◌-◌, ◌*◌, ◌≤◌, ◌<◌, ◌%◌, ◌≡◌, inl, inr, refl, ap, Bool, false, List, [], arith,
  ltb, leb, if◌then◌else◌, Bool-cases,
}
use quantic_mosaic.Calendar.Civil.{Date, weekday}
use quantic_mosaic.Calendar.Business.{
  is_holiday, is_working, count_working, business_days_between, business_days_inclusive,
}

-- One day's share of a count.
abbrev pub one_if : Bool → ℕ
one_if b = if b then 1 else 0

module _ (hs : List Date) where
  pub count_working-acc :
      (n : ℕ) (d : Date) (acc : ℕ) → count_working hs n d acc ≡ acc + count_working hs n d 0
  unfolding count_working
  count_working-acc zero d acc = omega arith
  count_working-acc (suc n) d acc = elim (Bool-cases (is_working hs d)) [
    | inl e ↦
        rw e (
          omega (arith, count_working-acc n (d + 1) (acc + 1), count_working-acc n (d + 1) (0 + 1)))
    | inr e ↦ rw e (omega (arith, count_working-acc n (d + 1) acc))
  ]

  pub count_working-suc :
      (n : ℕ) (d : Date)
      → count_working hs (suc n) d 0 ≡ one_if (is_working hs d) + count_working hs n (d + 1) 0
  unfolding count_working
  count_working-suc n d = elim (Bool-cases (is_working hs d)) [
    | inl e ↦ rw e (omega (arith, count_working-acc n (d + 1) (0 + 1)))
    | inr e ↦ rw e (omega arith)
  ]

  pub count_working-split :
      (m n : ℕ) (d : Date)
      → count_working hs (m + n) d 0 ≡ count_working hs m d 0 + count_working hs n (d + m) 0
  count_working-split zero n d =
      let e : zero + n ≡ n = omega arith in
      let e' : d + zero ≡ d = omega arith in rw (e, e') (unfold count_working in omega arith)
  count_working-split (suc m) n d =
      let e : suc m + n ≡ suc (m + n) = omega arith in
      let e' : d + suc m ≡ d + 1 + m = omega arith in
      rw (e, e', count_working-suc (m + n) d, count_working-suc m d)
        (omega (arith, count_working-split m n (d + 1)))

  pub count_working-le : (n : ℕ) (d : Date) → count_working hs n d 0 ≤ n
  count_working-le zero d = unfold count_working in omega arith
  count_working-le (suc n) d = rw count_working-suc (ground (arith, count_working-le n (d + 1)))

  -- Where the first day is before the last, the business days with both end days counted are those
  -- strictly between, and one more for each end day that is a working day.
  pub inclusive-eq-between :
      (s e : Date)
      → s < e
      → business_days_inclusive s e hs
        ≡ one_if (is_working hs s) + business_days_between s e hs + one_if (is_working hs e)
  unfolding business_days_inclusive business_days_between
  inclusive-eq-between s e h =
      let gap : e + 1 - s ≡ suc (e - (s + 1) + 1) = omega arith in
      let last : s + 1 + (e - (s + 1)) ≡ e = omega arith in
      let lt_false : ltb e s ≡ false = ground arith in
      let le_false : leb e s ≡ false = ground arith in
      rw (lt_false, le_false, gap, count_working-suc, count_working-split, last)
        (let one_day : count_working hs 1 e 0 ≡ one_if (is_working hs e) =
            unfold count_working in ground arith in
          omega (arith, one_day))

  pub inclusive-le : (s e : Date) → business_days_inclusive s e hs ≤ e + 1 - s
  unfolding business_days_inclusive
  inclusive-le s e = ground (arith, count_working-le (e + 1 - s) s)

  -- Where a day is in a span and before its end, the business days of the span are those up to that
  -- day and those after it.
  pub inclusive-split :
      (s m e : Date)
      → s ≤ m
      → m < e
      → business_days_inclusive s e hs
        ≡ business_days_inclusive s m hs + business_days_inclusive (m + 1) e hs
  unfolding business_days_inclusive
  inclusive-split s m e h k =
      let parts : e + 1 - s ≡ (m + 1 - s) + (e + 1 - (m + 1)) = omega arith in
      let next : s + (m + 1 - s) ≡ m + 1 = omega arith in
      let f1 : ltb e s ≡ false = ground arith in
      let f2 : ltb m s ≡ false = ground arith in
      let f3 : ltb e (m + 1) ≡ false = ground arith in
      rw (f1, f2, f3, parts, count_working-split, next) refl

is_working_weekly : (d : Date) → is_working [] (d + 7) ≡ is_working [] d
unfolding is_working is_holiday weekday
is_working_weekly d = let e : (d + 7 + 6) % 7 ≡ (d + 6) % 7 = omega arith in rw e

-- Seven days in a row hold five working days where there are no holidays: sliding the week by a day
-- drops a day and takes in the same weekday.
count_week : (d : Date) → count_working [] 7 d 0 ≡ 5
count_week zero = unfold count_working is_working is_holiday weekday in refl
count_week (suc d) =
    let first : count_working [] 7 d 0 ≡ one_if (is_working [] d) + count_working [] 6 (d + 1) 0 =
      count_working-suc [] 6 d in
    let slid : count_working [] (6 + 1) (d + 1) 0
        ≡ count_working [] 6 (d + 1) 0 + count_working [] 1 (d + 1 + 6) 0 =
      count_working-split [] 6 1 (d + 1) in
    let day : count_working [] 1 (d + 1 + 6) 0 ≡ one_if (is_working [] (d + 1 + 6)) =
      unfold count_working in ground arith in
    let same : d + 1 + 6 ≡ d + 7 = omega arith in
    let step : suc d ≡ d + 1 = omega arith in
    rw step (
      omega (
        arith,
        count_week d,
        first,
        slid,
        day,
        ap (λ x. one_if (is_working [] x)) same,
        ap one_if (is_working_weekly d),
      ))

pub count_weeks : (k : ℕ) (d : Date) → count_working [] (7 * k) d 0 ≡ 5 * k
count_weeks zero d = unfold count_working in omega arith
count_weeks (suc k) d =
    let e : 7 * suc k ≡ 7 + 7 * k = omega arith in
    rw (e, count_working-split) (omega (arith, count_week d, count_weeks k (d + 7)))

-- With no holidays, a span of one or more whole weeks has five business days a week, whatever day it
-- starts on.
pub inclusive_weeks :
    (k : ℕ) (s : Date) → 1 ≤ k → business_days_inclusive s (s + 7 * k - 1) [] ≡ 5 * k
unfolding business_days_inclusive
inclusive_weeks k s h =
    let f : ltb (s + 7 * k - 1) s ≡ false = ground arith in
    let e : s + 7 * k - 1 + 1 - s ≡ 7 * k = omega arith in rw (f, e) (count_weeks k s)
