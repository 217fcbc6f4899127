-- ===== src/Calendar/Business/Span.antt =====
-- The walk of `span_end`: within its fuel it ends, on a working day, and the days that it has crossed
-- hold exactly the business days asked for.
use quantic_mosaic.Prelude.{
  ℕ, zero, suc, ◌+◌, ◌-◌, ◌*◌, ◌≤◌, ◌<◌, ◌≡◌, inl, inr, refl, ap, true, false, List, [], ◌∷◌, arith,
  ltb, ◌==◌, if◌then◌else◌, Bool-cases, max,
}
use quantic_mosaic.Calendar.Civil.{Date, weekday}
use quantic_mosaic.Calendar.Business.{
  is_holiday, is_working, count_working, business_days_inclusive, walk, walk_fuel, horizon,
  nth_business_day,
}
use quantic_mosaic.Calendar.Business.Count.{one_if, count_working-suc}

-- No day at or past the horizon is a holiday.
past_horizon : (hs : List Date) (d : Date) → horizon hs ≤ d → is_holiday hs d ≡ false
unfolding horizon is_holiday
past_horizon [] d h = refl
past_horizon (x ∷ hs) d h = ground (arith, past_horizon hs d)

-- The rounds that a weekend still takes.
abbrev weekend_left : Date → ℕ
weekend_left d = if weekday d == 5 then 2 else if weekday d == 6 then 1 else 0

-- What each round of the walk uses up.
abbrev rounds_left : List Date → Date → ℕ → ℕ
rounds_left hs d r = 3 * (horizon hs - d) + 3 * r + weekend_left d

rounds_fall_working :
    (hs : List Date) (d : Date) (r : ℕ)
    → is_working hs d ≡ true
    → rounds_left hs (d + 1) r < rounds_left hs d (suc r)
unfolding is_working weekday
rounds_fall_working hs d r h = ground arith

rounds_fall_idle :
    (hs : List Date) (d : Date) (r : ℕ)
    → is_working hs d ≡ false
    → rounds_left hs (d + 1) r < rounds_left hs d r
unfolding is_working weekday
rounds_fall_idle hs d r h = ground (arith, past_horizon hs d)

-- Where a walk from `start` for `remaining` business days ends.
pub record Ends (hs : List Date) (start : Date) (remaining : ℕ) (last : Date) : Type 0 where
  pub forward : start ≤ last
  pub on_working_day : is_working hs last ≡ true
  pub counted : count_working hs (last + 1 - start) start 0 ≡ remaining

Ends-now : (hs : List Date) (d : Date) → is_working hs d ≡ true → Ends hs d 1 d
Ends-now hs d h = record {
  forward = omega arith;
  on_working_day = h;
  counted = let e : d + 1 - d ≡ 1 = omega arith in rw e (unfold count_working in rw h);
}

Ends-later :
    (hs : List Date) (d : Date) (r : ℕ) (last : Date)
    → Ends hs (d + 1) r last
    → Ends hs d (one_if (is_working hs d) + r) last
Ends-later hs d r last h = record {
  forward = omega (arith, h.forward);
  on_working_day = h.on_working_day;
  counted =
      let e : last + 1 - d ≡ suc (last + 1 - (d + 1)) = omega (arith, h.forward) in
      rw (e, count_working-suc) (ap (λ n. one_if (is_working hs d) + n) h.counted);
}

module _ (hs : List Date) (fuel : ℕ) (d : Date) where
  walk_idle :
      (r : ℕ)
      → is_working hs d ≡ false
      → walk hs (suc fuel) d (suc r) ≡ walk hs fuel (d + 1) (suc r)
  unfolding walk
  walk_idle r w = rw w (ground arith)

  walk_last : is_working hs d ≡ true → walk hs (suc fuel) d 1 ≡ d
  unfolding walk
  walk_last w = rw w (ground arith)

  walk_next :
      (r : ℕ)
      → is_working hs d ≡ true
      → walk hs (suc fuel) d (suc (suc r)) ≡ walk hs fuel (d + 1) (suc r)
  unfolding walk
  walk_next r w = let e : suc (suc r) - 1 ≡ suc r = omega arith in rw (w, e) (ground arith)

-- With a round for each of `rounds_left` the walk ends where it should.
walk-Ends :
    (hs : List Date) (fuel : ℕ) (d : Date) (r : ℕ)
    → rounds_left hs d (suc r) < fuel
    → Ends hs d (suc r) (walk hs fuel d (suc r))
walk-Ends hs zero d r h = elim h [ ]
walk-Ends hs (suc fuel) d zero h = elim (Bool-cases (is_working hs d)) [
  | inl w ↦ rw (walk_last hs fuel d w) (Ends-now hs d w)
  | inr w ↦
      let rest : Ends hs d (one_if (is_working hs d) + 1) (walk hs fuel (d + 1) 1) =
        Ends-later hs d 1 _
          (walk-Ends hs fuel (d + 1) zero (omega (arith, rounds_fall_idle hs d 1 w))) in
      rw (walk_idle hs fuel d zero w) (rw w at rest)
]
walk-Ends hs (suc fuel) d (suc r) h = elim (Bool-cases (is_working hs d)) [
  | inl w ↦
      let rest : Ends hs d (one_if (is_working hs d) + suc r) (walk hs fuel (d + 1) (suc r)) =
        Ends-later hs d (suc r) _
          (walk-Ends hs fuel (d + 1) r (omega (arith, rounds_fall_working hs d (suc r) w))) in
      let e : 1 + suc r ≡ suc (suc r) = omega arith in
      rw (walk_next hs fuel d r w) (rw e at (rw w at rest))
  | inr w ↦
      let rest : Ends hs d (one_if (is_working hs d) + suc (suc r))
          (walk hs fuel (d + 1) (suc (suc r))) =
        Ends-later hs d (suc (suc r)) _ (
          walk-Ends hs fuel (d + 1) (suc r)
            (omega (arith, rounds_fall_idle hs d (suc (suc r)) w))) in
      let e : 0 + suc (suc r) ≡ suc (suc r) = omega arith in
      rw (walk_idle hs fuel d (suc r) w) (rw e at (rw w at rest))
]

fuel_enough : (hs : List Date) (d : Date) (r : ℕ) → rounds_left hs d r < walk_fuel hs d r
unfolding walk_fuel
fuel_enough hs d r = ground arith

Ends-inclusive :
    (hs : List Date) (start : Date) (r : ℕ) (last : Date)
    → Ends hs start r last
    → business_days_inclusive start last hs ≡ r
unfolding business_days_inclusive
Ends-inclusive hs start r last h =
    let f : ltb last start ≡ false = ground (arith, h.forward) in rw f h.counted

-- Whatever the holidays, the start and the number of days are, the walk of `span_end` ends on a working
-- day at or after the start, and the span that it closes has exactly `max(days, 1)` business days.
pub nth_business_day_exact :
    (hs : List Date) (start : Date) (days : ℕ)
    → (start ≤ nth_business_day hs start days)
      × (is_working hs (nth_business_day hs start days) ≡ true)
      × (business_days_inclusive start (nth_business_day hs start days) hs ≡ max days 1)
unfolding nth_business_day
nth_business_day_exact hs start days =
    let e : max days 1 ≡ suc (max days 1 - 1) = omega arith in
    let ends : Ends hs start (max days 1)
        (walk hs (walk_fuel hs start (max days 1)) start (max days 1)) =
      rw e (walk-Ends hs _ start (max days 1 - 1) (fuel_enough hs start _)) in
    (ends.forward, ends.on_working_day, Ends-inclusive hs start _ _ ends)
