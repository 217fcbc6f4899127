-- ===== src/Rules/Value.antt =====
-- The Python values that the engine reads: what YAML and JSON give it, and the conversions of
-- src/hrmosaic/mcpserver/rules.py on them (`_parse_date`, `_numeric`).
use quantic_mosaic.Prelude.{
  ℕ, suc, ◌+◌, ◌-◌, ◌/◌, ◌%◌, ◌^◌, ◌≡◌, refl, Bool, true, false, Option, none, some, String, str_eq,
  ◌==◌, leb, if◌then◌else◌, List,
}
use quantic_mosaic.Prelude.Int.{ℤ, pos, negsuc, pos_part, neg_part, ◌*ℤ◌, sub_ℕ}
use quantic_mosaic.Calendar.Civil.{Date}
use quantic_mosaic.Calendar.Iso.{from_iso}

-- A finite float is a whole number of units of 2 ^ -1074, the least positive double.
unfoldable pub unit : ℕ
unit = 2 ^ 1074

pub data Value : Type 0 where
  none_value : Value
  bool : Bool → Value
  int : ℤ → Value
  float : ℤ → Value
  text : String → Value
  date : Date → Value

-- A mapping from names to values.
abbrev pub Dict : Type 0
Dict = List (String × Value)

-- `_parse_date`.
unfoldable pub parse_date : Value → Option Date
parse_date (date d) = some d
parse_date (text s) = from_iso s
parse_date _ = none

unfoldable pub parse_date? : Option Value → Option Date
unfolding parse_date
parse_date? none = none
parse_date? (some v) = parse_date v

-- `float(n)` for an integer, in units. It is exact up to 2 ^ 53, above which a float rounds.
unfoldable pub float_of_int : ℤ → ℤ
unfolding unit ◌*ℤ◌
float_of_int n = n *ℤ pos unit

-- `_numeric`: `none` for what is no number; a Boolean is 0 or 1.
unfoldable pub numeric : Value → Option ℤ
unfolding float_of_int
numeric (bool b) = some (float_of_int (pos (if b then 1 else 0)))
numeric (int n) = some (float_of_int n)
numeric (float x) = some x
numeric _ = none

unfoldable pub numeric? : Option Value → Option ℤ
unfolding numeric
numeric? none = none
numeric? (some v) = numeric v

-- `int(x)` of a float, towards zero.
unfoldable pub trunc : ℤ → ℤ
unfolding unit
trunc (pos n) = pos (n / unit)
trunc (negsuc n) = sub_ℕ 0 (suc n / unit)

-- `x.is_integer()`.
unfoldable pub is_integer : ℤ → Bool
unfolding unit
is_integer x = (pos_part x + neg_part x) % unit == 0

abbrev pub eq_ℤ : ℤ → ℤ → Bool
eq_ℤ a b = (pos_part a + neg_part b) == (pos_part b + neg_part a)

abbrev pub le_ℤ : ℤ → ℤ → Bool
le_ℤ a b = leb (pos_part a + neg_part b) (pos_part b + neg_part a)

other_eq : Value → Value → Bool
other_eq none_value none_value = true
other_eq (text s) (text t) = str_eq s t
other_eq (date a) (date b) = a == b
other_eq _ _ = false

numbers_eq : Option ℤ → Option ℤ → Bool → Bool
numbers_eq (some a) (some b) others = eq_ℤ a b
numbers_eq _ _ others = others

-- `a == b`: Booleans, integers and floats compare as numbers, and values of other types by type.
unfoldable pub py_eq : Value → Value → Bool
unfolding numeric other_eq numbers_eq
py_eq a b = numbers_eq (numeric a) (numeric b) (other_eq a b)

-- `date + timedelta(days=n)` and `a - b` in days.
unfoldable pub add_days : Date → ℤ → Date
add_days d (pos n) = d + n
add_days d (negsuc n) = d - suc n

unfoldable pub days_from : Date → Date → ℤ
days_from later earlier = sub_ℕ later earlier

-- `max(0, n)`.
unfoldable pub at_least_zero : ℤ → ℤ
at_least_zero n = pos (pos_part n)

true_is_one : py_eq (bool true) (float (float_of_int (pos 1))) ≡ true
unfolding py_eq
true_is_one = refl
