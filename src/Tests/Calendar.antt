-- ===== src/Tests/Calendar.antt =====
-- The business days of src/hrmosaic/mcpserver/rules.py on dates: 739040 is Monday 2024-06-03, with a
-- holiday on the Wednesday after it.
use quantic_mosaic.Prelude.{◌+◌, ◌≤◌, ◌≡◌, refl, List, [], ◌∷◌, max, true}
use quantic_mosaic.Calendar.Civil.{Date, weekday}
use quantic_mosaic.Calendar.Business.{is_working, business_days_inclusive, nth_business_day}
use quantic_mosaic.Calendar.Business.Span.{nth_business_day_exact}

abbrev monday : Date
monday = 739040

abbrev holidays : List Date
holidays = (monday + 2) ∷ []

monday_is : weekday monday ≡ 0
unfolding weekday
monday_is = refl

nth_business_day_exact_example :
    (monday ≤ nth_business_day holidays monday 4)
    × (is_working holidays (nth_business_day holidays monday 4) ≡ true)
    × (business_days_inclusive monday (nth_business_day holidays monday 4) holidays ≡ max 4 1)
nth_business_day_exact_example = nth_business_day_exact holidays monday 4
