-- ===== src/Rules/Computed.antt =====
-- `Context.computed`, `subject`, `resolve_fact_key` and `fact`
-- (src/hrmosaic/mcpserver/rules.py).
use quantic_mosaic.Prelude.{
  ℕ, Option, none, some, List, [], ◌∷◌, String, ◌<>◌, ◌==◌, lookup, member, strip_prefix?,
  if◌then◌else◌,
}
use quantic_mosaic.Prelude.Int.{ℤ, pos}
use quantic_mosaic.Calendar.Civil.{Date}
use quantic_mosaic.Rules.Value.{Value, none_value, bool, int, text, Dict, numeric?, trunc, add_days}
use quantic_mosaic.Rules.Print.{show, iso_text, weekday_date}
use quantic_mosaic.Rules.Data.{
  Context, Result, ok, err, unknown_subject, unknown_fact_key, indirect_fact_key,
}
use quantic_mosaic.Rules.Spans.{
  for_some, for_both, date_parameter, tenure_days, notice_calendar_days, notice_business_days,
  claim_age_days, days_since_eligibility, eligibility_date, span_end, duration_days, business_days,
  overlaps_blackout,
}

unit_word : ℕ → String
unit_word n = if n == 1 then "business day" else "business days"

span_words : Date → Date → String
span_words start end = weekday_date start <> " to " <> weekday_date end <> ": "

with_count : Option String → Option ℕ → Option String
unfolding unit_word
with_count words count =
    for_both words count (λ text_of_span days. text_of_span <> show days <> " " <> unit_word days)

-- What Python takes for true in a number that may be missing.
nonzero : Option ℤ → Option ℤ
nonzero (some (pos ℕ.zero)) = none
nonzero n = n

module _ (c : Context) where
  -- The span in words, with its count.
  unfoldable pub business_day_span : Option String
  unfolding span_words with_count
  business_day_span =
      with_count (for_both (date_parameter c "start_date") (span_end c) span_words)
        (business_days c)

  unfoldable pub notice_span : Option String
  unfolding unit_word
  notice_span = for_both (date_parameter c "start_date") (notice_business_days c) (λ start notice.
      weekday_date c.submitted_on
      <> " to "
      <> weekday_date start
      <> ": "
      <> show notice
      <> " "
      <> unit_word notice
      <> "' notice")

  -- `if eligibility and window`: a window of 0 days counts as none.
  election_deadline : Option Date
  unfolding nonzero
  election_deadline =
      for_both (eligibility_date c)
        (nonzero (numeric? (lookup "benefits.new_hire.election_window_days" c.facts)))
        (λ eligible window. add_days eligible (trunc window))

put : String → Option Value → Dict → Dict
put name none rest = rest
put name (some none_value) rest = rest
put name (some v) rest = (name, v) ∷ rest

abbrev as_date : Option Date → Option Value
as_date d = for_some d (λ x. text (iso_text x))

abbrev as_int : Option ℤ → Option Value
as_int n = for_some n int

abbrev as_count : Option ℕ → Option Value
as_count n = for_some n (λ x. int (pos x))

abbrev as_text : Option String → Option Value
as_text s = for_some s text

-- Every derived value that is not `None`, in the source's order.
unfoldable pub computed : Context → Dict
unfolding put election_deadline
computed c = put "as_of" (some (text (iso_text c.as_of))) (
    put "submitted_on" (some (text (iso_text c.submitted_on))) (
      put "start_date" (as_date (date_parameter c "start_date")) (
        put "end_date" (as_date (date_parameter c "end_date")) (
          put "tenure_days" (as_int (tenure_days c)) (
            put "tenure_months_at_as_of" (lookup "tenure_months_at_as_of" c.employee) (
              put "notice_business_days" (as_count (notice_business_days c)) (
                put "notice_calendar_days" (as_int (notice_calendar_days c)) (
                  put "notice_span" (as_text (notice_span c)) (
                    put "business_days" (as_count (business_days c)) (
                      put "business_day_span" (as_text (business_day_span c)) (
                        put "duration_days" (as_int (duration_days c)) (
                          put "claim_age_days" (as_int (claim_age_days c)) (
                            put "overlaps_blackout" (for_some (overlaps_blackout c) bool) (
                              put "span_end" (as_date (span_end c)) (
                                put "benefits_eligibility_date" (as_date (eligibility_date c)) (
                                  put "benefits_election_deadline" (as_date (election_deadline c))
                                    []))))))))))))))))

abbrev pub computed_subjects : List String
computed_subjects =
    "computed.tenure_days" ∷ "computed.notice_business_days" ∷ "computed.notice_calendar_days"
    ∷ "computed.overlaps_blackout" ∷ "computed.claim_age_days" ∷ "computed.days_since_eligibility"
    ∷ []

abbrev pub balance_subjects : List String
balance_subjects = "pto_balance.remaining_days" ∷ []

abbrev pub snapshot_subjects : List String
snapshot_subjects = "employee.tenure_months_at_as_of" ∷ "computed.tenure_days" ∷ balance_subjects

-- A missing key and a `None` are the same to `.get`.
abbrev pub present : Option Value → Option Value
present (some none_value) = none
present v = v

computed_subject : Context → String → Result (Option Value)
computed_subject c name =
    if member name ("computed.tenure_days" ∷ [])
    then ok (as_int (tenure_days c))
    else if member name ("computed.notice_calendar_days" ∷ [])
    then ok (as_int (notice_calendar_days c))
    else if member name ("computed.notice_business_days" ∷ [])
    then ok (as_count (notice_business_days c))
    else if member name ("computed.claim_age_days" ∷ [])
    then ok (as_int (claim_age_days c))
    else if member name ("computed.days_since_eligibility" ∷ [])
    then ok (as_int (days_since_eligibility c))
    else if member name ("computed.overlaps_blackout" ∷ [])
    then ok (for_some (overlaps_blackout c) bool)
    else err (unknown_subject name)

balance_subject : Context → String → Result (Option Value)
unfolding computed_subject
balance_subject c name =
    if member name balance_subjects
    then ok (present (lookup "remaining_days" c.balance.fields))
    else computed_subject c name

employee_subject : Context → String → Option String → Result (Option Value)
unfolding balance_subject
employee_subject c name (some field) = ok (present (lookup field c.employee))
employee_subject c name none = balance_subject c name

parameter_subject : Context → String → Option String → Result (Option Value)
unfolding employee_subject
parameter_subject c name (some field) = ok (present (lookup field c.parameters))
parameter_subject c name none = employee_subject c name (strip_prefix? "employee." name)

unfoldable pub subject : Context → String → Result (Option Value)
unfolding parameter_subject strip_prefix?
subject c name = parameter_subject c name (strip_prefix? "parameters." name)

unfoldable pub fact : Context → String → Result Value
fact c key = elim (lookup key c.facts) [ none ↦ err (unknown_fact_key key) | some v ↦ ok v ]

named_fact : Context → String → Option Value → Result String
named_fact c fact_key (some (text resolved)) = elim (lookup resolved c.facts) [
  | none ↦ err (indirect_fact_key fact_key)
  | some v ↦ ok resolved
]
named_fact c fact_key _ = err (indirect_fact_key fact_key)

indirect_key : Context → String → Option String → Result String
unfolding named_fact
indirect_key c fact_key none = ok fact_key
indirect_key c fact_key (some field) = named_fact c fact_key (lookup field c.balance.fields)

-- A literal key, or the key that the employee's own balance row names.
unfoldable pub resolve_fact_key : Context → String → Result String
unfolding indirect_key strip_prefix?
resolve_fact_key c fact_key = indirect_key c fact_key (strip_prefix? "pto_balance." fact_key)
