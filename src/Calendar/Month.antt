-- ===== src/Calendar/Month.antt =====
-- `_add_months` of src/hrmosaic/mcpserver/rules.py.
use quantic_mosaic.Prelude.{ℕ, ◌+◌, ◌-◌, ◌/◌, ◌%◌, ◌≡◌, refl, min, ◌==◌, if◌then◌else◌}
use quantic_mosaic.Calendar.Civil.{Date, civil, ordinal}

-- `divmod(anchor.month - 1 + months, 12)`, then the first day of the following month, and the day
-- before it for the last day that the month has.
unfoldable pub add_months : Date → ℕ → Date
unfolding civil ordinal
add_months anchor months =
    let c = civil anchor in
    let total = c.month - 1 + months in
    let year = c.year + total / 12 in
    let month = total % 12 + 1 in
    let following = ordinal (year + (if month == 12 then 1 else 0)) (month % 12 + 1) 1 in
    ordinal year month (min c.day (civil (following - 1)).day)

clamped : add_months (ordinal 2026 1 31) 1 ≡ ordinal 2026 2 28
unfolding add_months
clamped = refl

next_year : add_months (ordinal 2026 8 15) 12 ≡ ordinal 2027 8 15
unfolding add_months
next_year = refl

december : add_months (ordinal 2026 10 31) 2 ≡ ordinal 2026 12 31
unfolding add_months
december = refl
