-- ===== src/Calendar/Iso.antt =====
-- `_parse_date` of src/hrmosaic/mcpserver/rules.py on texts: `date.fromisoformat(value[:10])`, which
-- reads the calendar and the week forms, with and without separators. What follows the last digit of
-- the date is not looked at, as in CPython.
use Prim.Native.Char.{code}
use quantic_mosaic.Prelude.{
  ℕ, ◌+◌, ◌-◌, ◌*◌, ◌≡◌, refl, Bool, ◌&&◌, ◌||◌, Option, none, some, List, [], ◌∷◌, String, ◌==◌,
  ltb, leb, if◌then◌else◌, take, length,
}
use quantic_mosaic.Calendar.Civil.{Date, ordinal, weekday, days_in_month, is_leap}

infixl 5 ◌>>=◌
abbrev ◌>>=◌ : {A B : Type 0} → Option A → (A → Option B) → Option B
none >>= f = none
some a >>= f = f a

abbrev pub codes : String → List ℕ
codes String.[] = []
codes (String.◌∷◌ c s) = code c ∷ codes s

-- The value of `n` decimal digits, with what follows them.
digits : ℕ → ℕ → List ℕ → Option (ℕ × List ℕ)
digits ℕ.zero acc s = some (acc, s)
digits (ℕ.suc n) acc [] = none
digits (ℕ.suc n) acc (c ∷ s) =
    let rest = digits n (acc * 10 + (c - b'0')) s in if leb b'0' c && leb c b'9' then rest else none

dash : List ℕ → Option (List ℕ)
dash [] = none
dash (c ∷ s) = if c == b'-' then some s else none

-- A missing separator where one is used, and nothing where none is.
separator : Bool → List ℕ → Option (List ℕ)
unfolding dash
separator uses s = if uses then dash s else some s

checked_date : ℕ → ℕ → ℕ → Option Date
checked_date y m d =
    if leb 1 y && leb y 9999 && leb 1 m && leb m 12 && leb 1 d && leb d (days_in_month y m)
    then some (ordinal y m d)
    else none

week1_monday : ℕ → ℕ
week1_monday y =
    let first = ordinal y 1 1 in
    let monday = first - weekday first in if ltb 3 (weekday first) then monday + 7 else monday

has_53_weeks : ℕ → Bool
has_53_weeks y = let w = weekday (ordinal y 1 1) in (w == 3) || ((w == 2) && is_leap y)

week_date : ℕ → ℕ → ℕ → Option Date
unfolding week1_monday has_53_weeks
week_date y w d =
    let o = week1_monday y + (w - 1) * 7 + (d - 1) in
    if leb 1 y
      && leb y 9999
      && leb 1 w
      && (leb w 52 || ((w == 53) && has_53_weeks y))
      && leb 1 d
      && leb d 7
      && leb 1 o
      && leb o 3652059
    then some o
    else none

week_form : Bool → ℕ → List ℕ → Option Date
unfolding digits separator week_date
week_form uses y s = do
  (w, rest) ← digits 2 0 s
  elim rest [
    | [] ↦ week_date y w 1
    | c ∷ more ↦ (do
      more' ← separator uses (c ∷ more)
      (d, tail) ← digits 1 0 more'
      week_date y w d)
  ]

calendar_form : Bool → ℕ → List ℕ → Option Date
unfolding digits separator checked_date
calendar_form uses y s = do
  (m, rest) ← digits 2 0 s
  rest' ← separator uses rest
  (d, tail) ← digits 2 0 rest'
  checked_date y m d

after_year : ℕ → Bool → List ℕ → Option Date
unfolding calendar_form week_form
after_year y uses [] = none
after_year y uses (c ∷ s) = if c == b'W' then week_form uses y s else calendar_form uses y (c ∷ s)

split_year : ℕ → List ℕ → Option Date
unfolding after_year
split_year y [] = none
split_year y (c ∷ s) =
    if c == b'-' then after_year y Bool.true s else after_year y Bool.false (c ∷ s)

-- `date.fromisoformat(value[:10])`, with `none` for its `ValueError`.
unfoldable pub from_iso : String → Option Date
unfolding digits split_year
from_iso text =
    let s = take 10 (codes text) in
    let n = length s in
    if (n == 7) || (n == 8) || (n == 10)
    then (do (y, rest) ← digits 4 0 s; split_year y rest)
    else none

calendar_text : from_iso "2026-09-29T10:00" ≡ some 739888
unfolding from_iso ordinal weekday days_in_month
calendar_text = refl

compact_text : from_iso "20260929" ≡ some 739888
unfolding from_iso ordinal weekday days_in_month
compact_text = refl

week_text : from_iso "2026-W40-2" ≡ some 739888
unfolding from_iso ordinal weekday days_in_month
week_text = refl

trailing_text : from_iso "2026092911" ≡ some 739888
unfolding from_iso ordinal weekday days_in_month
trailing_text = refl

no_such_day : from_iso "2026-02-29" ≡ none
unfolding from_iso ordinal weekday days_in_month
no_such_day = refl
