-- ===== src/Rules/Operators.antt =====
-- `_literal`, `_compare_value`, `_apply` and `guard_holds`
-- (src/hrmosaic/mcpserver/rules.py).
pub mod Guards
use Prim.Native.Char.{code}
use quantic_mosaic.Prelude.{
  ℕ, ◌+◌, ◌≡◌, Bool, true, false, not, ◌||◌, ◌&&◌, Option, none, some, List, [], ◌∷◌, String,
  str_eq, map, lookup, member, strip_prefix?, before, after, leb, if◌then◌else◌,
}
use quantic_mosaic.Prelude.Int.{ℤ}
use quantic_mosaic.Calendar.Civil.{Date}
use quantic_mosaic.Rules.Value.{
  Value, bool, int, float, text, numeric, numeric?, parse_date, py_eq, le_ℤ,
}
use quantic_mosaic.Rules.Print.{py_str, py_str?, strip, split_on}
use quantic_mosaic.Rules.Data.{
  Context, World, Check, Status, Result, ok, err, ◌>>=◌, RuleError, unknown_compare_to,
  unknown_applies_when, guard_names_no_requirement, needs_two_dates, needs_two_numbers,
  unknown_operator,
}
use quantic_mosaic.Rules.Computed.{fact, present}

abbrev pub comparison_operators : List String
comparison_operators = "lte" ∷ "lt" ∷ "gte" ∷ "gt" ∷ "eq" ∷ "in" ∷ "date_lte" ∷ "date_gte" ∷ []

abbrev pub operators : List String
operators =
    "lte" ∷ "lt" ∷ "gte" ∷ "gt" ∷ "eq" ∷ "in" ∷ "date_lte" ∷ "date_gte" ∷ "manual" ∷ "informational"
    ∷ []

-- A text compared with a lower-case one, its capital letters lowered.
lower_is : String → String → Bool
lower_is String.[] String.[] = true
lower_is (String.◌∷◌ c s) (String.◌∷◌ d t) =
    let low = if leb b'A' (code c) && leb (code c) b'Z' then code c + 32 else code c in
    (leb low (code d) && leb (code d) low) && lower_is s t
lower_is _ _ = false

number_or_text : World → String → Option ℤ → Option ℤ → Value
number_or_text w s (some n) x = int n
number_or_text w s none (some x) = float x
number_or_text w s none none = text s

unfoldable pub literal : World → String → Value
unfolding lower_is number_or_text strip
literal w s =
    if lower_is (strip s) "true"
    then bool true
    else if lower_is (strip s) "false"
    then bool false
    else number_or_text w s (w.int_of_text s) (w.float_of_text s)

compare_literal : Context → String → Option String → Result (Option Value)
unfolding literal
compare_literal c compare_to (some s) = ok (some (literal c.world s))
compare_literal c compare_to none = err (unknown_compare_to compare_to)

compare_parameter : Context → String → Option String → Result (Option Value)
unfolding compare_literal strip_prefix?
compare_parameter c compare_to (some name) = ok (present (lookup name c.parameters))
compare_parameter c compare_to none =
    compare_literal c compare_to (strip_prefix? "literal:" compare_to)

known_fact : Context → String → Result (Option Value)
known_fact c fact_key = do v ← fact c fact_key; ok (present (some v))

-- `check.get("compare_to", "fact")`.
abbrev pub compare_to_of : Check → String
compare_to_of check = elim check.compare_to [ none ↦ "fact" | some s ↦ s ]

unfoldable pub compare_value : Check → String → Context → Result (Option Value)
unfolding compare_parameter known_fact strip_prefix?
compare_value check fact_key c =
    if str_eq (compare_to_of check) "fact"
    then known_fact c fact_key
    else compare_parameter c (compare_to_of check)
        (strip_prefix? "parameters." (compare_to_of check))

apply_dates : String → Value → Value → Option Date → Option Date → Result Bool
apply_dates operator subject expected (some left) (some right) =
    ok (if str_eq operator "date_lte" then leb left right else leb right left)
apply_dates operator subject expected _ _ = err (needs_two_dates operator subject expected)

-- The table of the four orders; the other operators have been dealt with.
abbrev order : String → ℤ → ℤ → Result Bool
order operator a b =
    if str_eq operator "lte"
    then ok (le_ℤ a b)
    else if str_eq operator "lt"
    then ok (not (le_ℤ b a))
    else if str_eq operator "gte"
    then ok (le_ℤ b a)
    else if str_eq operator "gt"
    then ok (not (le_ℤ a b))
    else err (unknown_operator operator)

apply_numbers : String → Value → Value → Option ℤ → Option ℤ → Result Bool
apply_numbers operator subject expected (some a) (some b) = order operator a b
apply_numbers operator subject expected _ _ = err (needs_two_numbers operator subject expected)

-- `_apply`.
unfoldable pub apply : World → String → Value → Value → Result Bool
unfolding apply_dates apply_numbers numeric parse_date
apply w operator subject expected =
    if str_eq operator "in"
    then ok (
        member (py_str w.float_repr subject)
          (map strip (split_on b',' (py_str w.float_repr expected))))
    else if member operator ("date_lte" ∷ "date_gte" ∷ [])
    then apply_dates operator subject expected (parse_date subject) (parse_date expected)
    else if str_eq operator "eq"
    then ok (py_eq subject expected)
    else apply_numbers operator subject expected (numeric subject) (numeric expected)

pub starts_with_any : List String → String → Bool
unfolding strip_prefix?
starts_with_any [] s = false
starts_with_any (p ∷ ps) s =
    let rest = starts_with_any ps s in elim (strip_prefix? p s) [ none ↦ rest | some _ ↦ true ]

abbrev pub guard_prefixes : List String
guard_prefixes = "unmet:" ∷ "met:" ∷ "parameter_eq:" ∷ "parameter_gte:" ∷ "employee_eq:" ∷ []

-- `decided.get(rest) == kind`, for `kind` one of `"unmet"` and `"met"`.
abbrev status_is : Bool → Option Status → Bool
status_is wants_met none = false
status_is wants_met (some Status.met) = wants_met
status_is wants_met (some Status.unmet) = not wants_met
status_is wants_met (some Status.not_stated) = false

at_least : Option ℤ → Option ℤ → Bool
at_least (some number) (some threshold) = le_ℤ threshold number
at_least _ _ = false

-- `parameter_gte:<name>:<fact_key>`.
parameter_gte : Context → String → String → Result Bool
unfolding at_least numeric? numeric
parameter_gte c name fact_key = do
  threshold ← fact c fact_key
  ok (at_least (numeric? (lookup name c.parameters)) (numeric threshold))

-- The guard `kind:rest`, the prefix known.
pub guard_of_kind :
    Context → List (String × Status) → List String → String → String → String → Result Bool
unfolding parameter_gte before after
guard_of_kind c decided known guard kind rest =
    if member kind ("unmet" ∷ "met" ∷ [])
    then (if member rest known
        then ok (status_is (str_eq kind "met") (lookup rest decided))
        else err (guard_names_no_requirement guard))
    else if str_eq kind "employee_eq"
    then ok (
        str_eq (py_str? c.world.float_repr (lookup (before b':' rest) c.employee))
          (after b':' rest))
    else if str_eq kind "parameter_eq"
    then ok (
        str_eq (py_str? c.world.float_repr (lookup (before b':' rest) c.parameters))
          (after b':' rest))
    else parameter_gte c (before b':' rest) (after b':' rest)

-- `guard_holds`: `decided` has the status of each row decided so far, `known` every id.
unfoldable pub guard_holds :
    Option String → Context → List (String × Status) → List String → Result Bool
unfolding guard_of_kind starts_with_any before after
guard_holds none c decided known = ok true
guard_holds (some guard) c decided known =
    if str_eq guard "always"
    then ok true
    else if starts_with_any guard_prefixes guard
    then guard_of_kind c decided known guard (before b':' guard) (after b':' guard)
    else err (unknown_applies_when guard)
