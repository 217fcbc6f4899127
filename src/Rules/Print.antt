-- ===== src/Rules/Print.antt =====
-- `str(value)` of the Python values, ISO dates, and the weekday and month names of `_weekday_date`
-- (src/hrmosaic/mcpserver/rules.py). The shortest digits of a float are the interpreter's, and are
-- an argument.
use Prim.Native.Char.{code}
use quantic_mosaic.Prelude.{
  ℕ, zero, suc, ◌/◌, ◌%◌, ◌≡◌, refl, Bool, true, false, ◌||◌, ◌&&◌, String, ◌<>◌, List, [], ◌∷◌,
  ◌==◌, ltb, leb, if◌then◌else◌, Option, none, some,
}
use quantic_mosaic.Prelude.Int.{ℤ, pos, negsuc}
use quantic_mosaic.Calendar.Civil.{Date, civil, weekday, ordinal}
use quantic_mosaic.Rules.Value.{Value, none_value, bool, int, float, text, date, trunc, is_integer}

nth : List String → ℕ → String
nth [] i = ""
nth (x ∷ xs) zero = x
nth (x ∷ xs) (suc i) = nth xs i

digit : ℕ → String
unfolding nth
digit = nth ("0" ∷ "1" ∷ "2" ∷ "3" ∷ "4" ∷ "5" ∷ "6" ∷ "7" ∷ "8" ∷ "9" ∷ [])

-- `fuel` bounds the number of digits; a number has at most as many digits as its value plus one.
show_digits : ℕ → ℕ → String
unfolding digit
show_digits zero n = digit (n % 10)
show_digits (suc fuel) n =
    let front = show_digits fuel (n / 10) in if ltb n 10 then digit n else front <> digit (n % 10)

unfoldable pub show : ℕ → String
unfolding show_digits
show n = show_digits n n

unfoldable pub show_ℤ : ℤ → String
unfolding show
show_ℤ (pos n) = show n
show_ℤ (negsuc n) = "-" <> show (suc n)

pad2 : ℕ → String
unfolding show
pad2 n = if ltb n 10 then "0" <> show n else show n

pad4 : ℕ → String
unfolding pad2
pad4 n = if ltb n 100 then "00" <> pad2 n else if ltb n 1000 then "0" <> show n else show n

-- `d.isoformat()`.
unfoldable pub iso_text : Date → String
unfolding pad2 pad4 civil
iso_text d = let c = civil d in pad4 c.year <> "-" <> pad2 c.month <> "-" <> pad2 c.day

weekday_name : ℕ → String
unfolding nth
weekday_name =
    nth ("Monday" ∷ "Tuesday" ∷ "Wednesday" ∷ "Thursday" ∷ "Friday" ∷ "Saturday" ∷ "Sunday" ∷ [])

month_name : ℕ → String
unfolding nth
month_name = nth (
    "" ∷ "January" ∷ "February" ∷ "March" ∷ "April" ∷ "May" ∷ "June" ∷ "July" ∷ "August"
    ∷ "September" ∷ "October" ∷ "November" ∷ "December" ∷ [])

-- `_weekday_date`: `Tuesday 29 September`.
unfoldable pub weekday_date : Date → String
unfolding weekday_name month_name show civil weekday
weekday_date d =
    let c = civil d in weekday_name (weekday d) <> " " <> show c.day <> " " <> month_name c.month

-- `str(value)`.
unfoldable pub py_str : (ℤ → String) → Value → String
unfolding show_ℤ iso_text
py_str float_repr none_value = "None"
py_str float_repr (bool true) = "True"
py_str float_repr (bool false) = "False"
py_str float_repr (int n) = show_ℤ n
py_str float_repr (float x) = float_repr x
py_str float_repr (text s) = s
py_str float_repr (date d) = iso_text d

unfoldable pub py_str? : (ℤ → String) → Option Value → String
unfolding py_str
py_str? float_repr none = "None"
py_str? float_repr (some v) = py_str float_repr v

-- `_render`: a float that is whole reads as an integer.
unfoldable pub render : (ℤ → String) → Value → String
unfolding py_str show_ℤ trunc is_integer
render float_repr (bool b) = if b then "true" else "false"
render float_repr (float x) = if is_integer x then show_ℤ (trunc x) else float_repr x
render float_repr v = py_str float_repr v

unfoldable pub is_space : ℕ → Bool
is_space c =
    (leb 9 c && leb c 13)
    || (leb 28 c && leb c 32)
    || (c == 133)
    || (c == 160)
    || (c == 5760)
    || (leb 8192 c && leb c 8202)
    || (c == 8232)
    || (c == 8233)
    || (c == 8239)
    || (c == 8287)
    || (c == 12288)

unfoldable pub lstrip : String → String
unfolding is_space
lstrip String.[] = ""
lstrip (String.◌∷◌ c s) = let rest = lstrip s in if is_space (code c) then rest else String.◌∷◌ c s

is_blank : String → Bool
unfolding is_space
is_blank String.[] = true
is_blank (String.◌∷◌ c s) = is_space (code c) && is_blank s

unfoldable pub rstrip : String → String
unfolding is_blank
rstrip String.[] = ""
rstrip (String.◌∷◌ c s) =
    let rest = rstrip s in if is_blank (String.◌∷◌ c s) then "" else String.◌∷◌ c rest

-- `text.strip()`.
unfoldable pub strip : String → String
unfolding lstrip rstrip
strip s = rstrip (lstrip s)

-- `text[:n]`.
unfoldable pub prefix : ℕ → String → String
prefix zero s = ""
prefix (suc n) String.[] = ""
prefix (suc n) (String.◌∷◌ c s) = String.◌∷◌ c (prefix n s)

push_char : ℕ → String → List String → List String
push_char sep c [] = c ∷ []
push_char sep c (item ∷ items) = (c <> item) ∷ items

-- `text.split(",")`.
unfoldable pub split_on : ℕ → String → List String
unfolding push_char
split_on sep String.[] = "" ∷ []
split_on sep (String.◌∷◌ c s) =
    let rest = split_on sep s in
    if code c == sep then "" ∷ rest else push_char sep (String.◌∷◌ c "") rest

weekday_date_text : weekday_date (ordinal 2026 9 29) ≡ "Tuesday 29 September"
unfolding weekday_date ordinal
weekday_date_text = refl

iso_text_text : iso_text (ordinal 2026 9 1) ≡ "2026-09-01"
unfolding iso_text ordinal
iso_text_text = refl

split_text : split_on b',' "DE, IE" ≡ "DE" ∷ " IE" ∷ []
unfolding split_on
split_text = refl
