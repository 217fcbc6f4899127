-- ===== src/Windows.antt =====
-- The windows of a leaf of a document (`_cut` and `windows`, src/hrmosaic/rag/chunk.py). A text is the
-- list of its code points, and a window is a pair of positions.
pub mod Cover
use quantic_mosaic.Prelude.{
  ℕ, zero, suc, ◌+◌, ◌-◌, max, min, Bool, true, false, ◌&&◌, ◌||◌, Option, none, some, List, [],
  ◌∷◌, length, take, drop, leb, ltb, ◌==◌, any, if◌then◌else◌,
}
use quantic_mosaic.Rules.Print.{is_space}

abbrev pub Codes : Type 0
Codes = List ℕ

code_at : Codes → ℕ → Option ℕ
code_at [] i = none
code_at (c ∷ cs) zero = some c
code_at (c ∷ cs) (suc i) = code_at cs i

is_at : (ℕ → Bool) → Option ℕ → Bool
is_at p none = false
is_at p (some c) = p c

is_stop : ℕ → Bool
is_stop c = (c == b'.') || (c == b'!') || (c == b'?')

is_closer : ℕ → Bool
is_closer c = (c == b'"') || (c == b'\'') || (c == b')') || (c == b']')

-- The lookahead `(?=\s|$)` of `_SENTENCE_END`, in the text up to `high`.
ends_here : Codes → ℕ → ℕ → Bool
unfolding is_at code_at is_space
ends_here text high i = (i == high) || (ltb i high && is_at is_space (code_at text i))

abbrev pub choose : Bool → Bool → Bool → ℕ → Option ℕ
choose stops with_closer alone i =
    if stops
    then if with_closer then some (i + 2) else if alone then some (i + 1) else none
    else none

-- The end of the match of `_SENTENCE_END` that starts at this position, in the text up to `high`.
unfoldable pub match_end : Codes → ℕ → ℕ → Option ℕ
unfolding is_at code_at is_stop is_closer ends_here
match_end text high i =
    choose (is_at is_stop (code_at text i))
      (leb (i + 2) high && (is_at is_closer (code_at text (i + 1)) && ends_here text high (i + 2)))
      (leb (i + 1) high && ends_here text high (i + 1)) i

-- The position of a space.
unfoldable pub space_at : Codes → ℕ → ℕ → Option ℕ
unfolding is_at code_at
space_at text high i = if is_at (λ c. c == b' ') (code_at text i) then some i else none

abbrev pub or_else : Option ℕ → Option ℕ → Option ℕ
or_else none rest = rest
or_else (some found) rest = some found

-- The last of the `n` positions from `low` on at which something is found.
unfoldable pub last_found : (ℕ → Option ℕ) → ℕ → ℕ → Option ℕ
last_found at low zero = none
last_found at low (suc n) = or_else (at (low + n)) (last_found at low n)

unfoldable pub or_space : ℕ → ℕ → Option ℕ → ℕ
or_space low high none = high
or_space low high (some space) = if ltb low space then space + 1 else high

unfoldable pub or_cut : ℕ → Option ℕ → ℕ
or_cut at_space none = at_space
or_cut at_space (some end) = end

-- `_cut`.
unfoldable pub cut : Codes → ℕ → ℕ → ℕ
unfolding last_found match_end space_at or_space or_cut
cut text low high =
    or_cut (or_space low high (last_found (space_at text high) low (high - low)))
      (last_found (match_end text high) low (high - low))

pub record Limits : Type 0 where
  pub max_chars : ℕ
  pub window_chars : ℕ
  pub overlap_chars : ℕ
  pub min_chars : ℕ

-- The end of the window before a boundary is looked for.
abbrev pub raw_end : Limits → ℕ → ℕ → ℕ
raw_end limits length start =
    let end = min (start + limits.window_chars) length in
    if ltb (length - end) limits.min_chars then length else end

unfoldable pub window_end : Limits → Codes → ℕ → ℕ → ℕ
unfolding cut
window_end limits text start previous_end =
    let end = raw_end limits (length text) start in
    let low = max (start + limits.min_chars) (previous_end + 1) in
    if ltb end (length text) then if ltb low end then cut text low end else end else end

abbrev pub cons_to : ℕ × ℕ → Option (List (ℕ × ℕ)) → Option (List (ℕ × ℕ))
cons_to span none = none
cons_to span (some spans) = some (span ∷ spans)

-- The loop's windows: none where the fuel runs out.
unfoldable pub windows_from : ℕ → Limits → Codes → ℕ → ℕ → Option (List (ℕ × ℕ))
unfolding window_end
windows_from zero limits text start previous_end = none
windows_from (suc fuel) limits text start previous_end =
    let end = window_end limits text start previous_end in
    if ltb start (length text)
    then if leb (length text) end
      then some ((start, end) ∷ [])
      else cons_to (start, end)
          (windows_from fuel limits text (max (end - limits.overlap_chars) (start + 1)) end)
    else some []

unfoldable pub spans : Limits → Codes → Option (List (ℕ × ℕ))
unfolding windows_from
spans limits text = windows_from (length text + 1) limits text 0 0

lead : Codes → ℕ
unfolding is_space
lead [] = 0
lead (c ∷ cs) = if is_space c then suc (lead cs) else 0

trimmed : Codes → Codes
unfolding is_space
trimmed [] = []
trimmed (c ∷ cs) = elim (trimmed cs) [
  | [] ↦ (if is_space c then [] else c ∷ [])
  | d ∷ ds ↦ c ∷ d ∷ ds
]

add_piece : ℕ → Codes → List (ℕ × Codes) → List (ℕ × Codes)
add_piece offset [] rest = rest
add_piece offset (c ∷ cs) rest = (offset, c ∷ cs) ∷ rest

-- `piece.strip()` with its offset, where something is left of it.
pieces_of : Codes → List (ℕ × ℕ) → List (ℕ × Codes)
unfolding lead trimmed add_piece
pieces_of text [] = []
pieces_of text ((start, end) ∷ rest) =
    let piece = take (end - start) (drop start text) in
    add_piece (start + lead piece) (trimmed (drop (lead piece) piece)) (pieces_of text rest)

unfoldable pub found_pieces : Codes → Option (List (ℕ × ℕ)) → Option (List (ℕ × Codes))
unfolding pieces_of
found_pieces text none = none
found_pieces text (some found) = some (pieces_of text found)

-- `windows`: a leaf within `max_chars` is returned whole.
unfoldable pub windows : Limits → Codes → Option (List (ℕ × Codes))
unfolding spans found_pieces
windows limits text =
    if leb (length text) limits.max_chars
    then some ((0, text) ∷ [])
    else found_pieces text (spans limits text)
