-- ===== src/Calendar/Business.antt =====
-- `business_days_between`, `business_days_inclusive` and the walk of `Context.span_end`
-- (src/hrmosaic/mcpserver/rules.py).
pub mod Count
pub mod Span
use quantic_mosaic.Prelude.{
  ℕ, zero, suc, ◌+◌, ◌-◌, ◌*◌, Bool, ◌&&◌, not, List, [], ◌∷◌, ◌==◌, ltb, leb, if◌then◌else◌, any,
  max,
}
use quantic_mosaic.Calendar.Civil.{Date, weekday}

-- `day in holidays`.
unfoldable pub is_holiday : List Date → Date → Bool
is_holiday holidays day = any (λ h. day == h) holidays

-- `cursor.weekday() < 5 and cursor not in holidays`.
unfoldable pub is_working : List Date → Date → Bool
is_working holidays day = ltb (weekday day) 5 && not (is_holiday holidays day)

-- The two `while` loops, by the days left: `count += 1` on a working day, and the next day.
pub count_working : List Date → ℕ → Date → ℕ → ℕ
count_working holidays zero cursor count = count
count_working holidays (suc left) cursor count =
    count_working holidays left (cursor + 1)
      (if is_working holidays cursor then count + 1 else count)

pub business_days_between : Date → Date → List Date → ℕ
business_days_between start end holidays =
    if leb end start then 0 else count_working holidays (end - (start + 1)) (start + 1) 0

pub business_days_inclusive : Date → Date → List Date → ℕ
business_days_inclusive start end holidays =
    if ltb end start then 0 else count_working holidays (end + 1 - start) start 0

-- The `while True` of `span_end`: `remaining` falls on a working day, and the walk stops at the day
-- on which it is used up. The fuel bounds the rounds, and without fuel the walk stays where it is.
pub walk : List Date → ℕ → Date → ℕ → Date
walk holidays zero cursor remaining = cursor
walk holidays (suc fuel) cursor remaining =
    let left = if is_working holidays cursor then remaining - 1 else remaining in
    let rest = walk holidays fuel (cursor + 1) left in if leb left 0 then cursor else rest

-- One past the last holiday.
unfoldable pub horizon : List Date → Date
horizon [] = 0
horizon (h ∷ hs) = max (h + 1) (horizon hs)

-- The rounds that the walk is given.
unfoldable pub walk_fuel : List Date → Date → ℕ → ℕ
unfolding horizon
walk_fuel holidays start remaining = 3 * (horizon holidays - start) + 3 * remaining + 3

-- `span_end` without an end date: the last of `max(days, 1)` business days from the start.
pub nth_business_day : List Date → Date → ℕ → Date
nth_business_day holidays start days =
    walk holidays (walk_fuel holidays start (max days 1)) start (max days 1)
