-- ===== src/Rules/Spans.antt =====
-- The dates and day counts that `Context` of src/hrmosaic/mcpserver/rules.py computes.
use quantic_mosaic.Prelude.{
  ℕ, Bool, ◌&&◌, Option, none, some, List, [], ◌∷◌, String, lookup, leb, any,
}
use quantic_mosaic.Prelude.Int.{ℤ, pos, pos_part, ◌+ℤ◌}
use quantic_mosaic.Calendar.Civil.{Date}
use quantic_mosaic.Calendar.Business.{
  business_days_between, business_days_inclusive, nth_business_day,
}
use quantic_mosaic.Rules.Value.{
  Value, int, float, parse_date, parse_date?, numeric?, trunc, add_days, days_from, at_least_zero,
}
use quantic_mosaic.Rules.Data.{Context}

-- `value if value is None else f(value)`, for one value and for two.
abbrev pub for_some : {A B : Type 0} → Option A → (A → B) → Option B
for_some none f = none
for_some (some a) f = some (f a)

abbrev pub for_both : {A B C : Type 0} → Option A → Option B → (A → B → C) → Option C
for_both none b f = none
for_both (some a) none f = none
for_both (some a) (some b) f = some (f a b)

-- `frozenset(parsed for parsed in (...) if parsed)`.
unfoldable pub parsed_dates : List Value → List Date
unfolding parse_date
parsed_dates [] = []
parsed_dates (v ∷ vs) =
    let rest = parsed_dates vs in elim (parse_date v) [ none ↦ rest | some d ↦ d ∷ rest ]

abbrev pub date_parameter : Context → String → Option Date
date_parameter c name = parse_date? (lookup name c.parameters)

module _ (c : Context) where
  unfoldable pub tenure_days : Option ℤ
  tenure_days =
      for_some (parse_date? (lookup "hire_date" c.employee)) (λ hire. days_from c.as_of hire)

  unfoldable pub notice_calendar_days : Option ℤ
  notice_calendar_days =
      for_some (date_parameter c "start_date")
        (λ start. at_least_zero (days_from start c.submitted_on))

  unfoldable pub notice_business_days : Option ℕ
  notice_business_days =
      for_some (date_parameter c "start_date")
        (λ start. business_days_between c.submitted_on start c.holidays)

  unfoldable pub claim_age_days : Option ℤ
  claim_age_days =
      for_some (date_parameter c "transaction_date")
        (λ transaction. at_least_zero (days_from c.submitted_on transaction))

  -- `eligibility_date`: the waiting period, counted from the hire date.
  unfoldable pub eligibility_date : Option Date
  eligibility_date =
      for_both (parse_date? (lookup "hire_date" c.employee))
        (numeric? (lookup "benefits.eligibility.waiting_period_days" c.facts))
        (λ hire waiting. add_days hire (trunc waiting))

  unfoldable pub days_since_eligibility : Option ℤ
  days_since_eligibility =
      for_both (parse_date? (lookup "hire_date" c.employee))
        (numeric? (lookup "benefits.eligibility.waiting_period_days" c.facts))
        (λ hire waiting. days_from c.submitted_on (add_days hire (trunc waiting)))

-- `span` of `span_end`: `int(days)` of a number that is no Boolean, and 1 for anything else. What is
-- below 1 counts as 1 there, so a negative number reads as 0 here.
requested_days : Option Value → ℕ
unfolding trunc
requested_days none = 1
requested_days (some (int n)) = pos_part n
requested_days (some (float x)) = pos_part (trunc x)
requested_days (some v) = 1

end_from : Context → Date → Option Date → Date
unfolding requested_days
end_from c start (some end) = end
end_from c start none =
    nth_business_day c.holidays start (requested_days (lookup "days" c.parameters))

module _ (c : Context) where
  unfoldable pub span_end : Option Date
  unfolding end_from
  span_end =
      for_some (date_parameter c "start_date")
        (λ start. end_from c start (date_parameter c "end_date"))

  unfoldable pub duration_days : Option ℤ
  duration_days =
      for_both (date_parameter c "start_date") (date_parameter c "end_date")
        (λ start end. days_from end start +ℤ pos 1)

  unfoldable pub business_days : Option ℕ
  business_days =
      for_both (date_parameter c "start_date") span_end
        (λ start end. business_days_inclusive start end c.holidays)

  unfoldable pub overlaps_blackout : Option Bool
  unfolding parsed_dates
  overlaps_blackout = for_both (date_parameter c "start_date") span_end (λ start end.
      any (λ day. leb start day && leb day end) (parsed_dates c.balance.blackout_dates))
