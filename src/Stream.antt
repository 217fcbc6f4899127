-- ===== src/Stream.antt =====
-- The scan of an answer that is still being written (`_BlockScanner`,
-- src/hrmosaic/agent/answer_stream.py); Assembler has what leaves. A text is the list of its code points.
-- What `json.loads` makes of a text and what `redact_text` makes of one are parameters.
pub mod Find
pub mod Loop
pub mod Resume
pub mod Assembler
pub mod Publish
pub mod Objects
pub mod Answer
use quantic_mosaic.Prelude.{
  ℕ, zero, suc, ◌+◌, ◌-◌, Bool, true, false, ◌&&◌, Option, none, some, List, [], ◌∷◌, ◌++◌, String,
  length, take, drop, ltb, ◌==◌, if◌then◌else◌,
}
use quantic_mosaic.Prelude.Int.{ℤ, pos, negsuc}
use quantic_mosaic.Windows.{Codes}

-- An object of the array: the three members that are read, absent or empty ones as `none`.
pub record Block : Type 0 where
  pub type : Option String
  pub text : Option String
  pub citations : List String

-- What `json.loads` makes of a text: `JSONDecodeError`, a dictionary, or another value.
pub data Loaded : Type 0 where
  not_json other : Loaded
  object : Block → Loaded

-- What the loop of `advance` writes, and what it only reads. `start` is `none` for the -1 of the
-- source.
pub record Scan : Type 0 where
  pub blocks : List Block
  pub done : Bool
  pub depth : ℤ
  pub start : Option ℕ
  pub in_string : Bool
  pub escaped : Bool

pub record Scanner : Type 0 where
  pub scan : Scan
  pub buffer : Codes
  pub cursor : ℕ
  pub in_array : Bool

abbrev pub fresh_scan : Scan
fresh_scan = record {
  blocks = [];
  done = false;
  depth = pos 0;
  start = none;
  in_string = false;
  escaped = false;
}

abbrev pub fresh_scanner : Scanner
fresh_scanner = record { scan = fresh_scan; buffer = []; cursor = 0; in_array = false }

abbrev pub push : Codes → Scanner → Scanner
push text s = record s { buffer = s.buffer ++ text }

-- `depth += 1`, `depth -= 1` and `depth == 0`: a stray brace takes the depth below 0.
unfoldable pub deeper : ℤ → ℤ
deeper (pos n) = pos (suc n)
deeper (negsuc zero) = pos 0
deeper (negsuc (suc n)) = negsuc n

unfoldable pub shallower : ℤ → ℤ
shallower (pos zero) = negsuc 0
shallower (pos (suc n)) = pos n
shallower (negsuc n) = negsuc (suc n)

unfoldable pub is_zero : ℤ → Bool
is_zero (pos zero) = true
is_zero _ = false

-- `str.startswith`, and `str.find` on what follows a position.
unfoldable pub starts_with : Codes → Codes → Bool
starts_with [] text = true
starts_with (p ∷ ps) [] = false
starts_with (p ∷ ps) (c ∷ cs) = (p == c) && starts_with ps cs

unfoldable pub find_from : Codes → ℕ → Codes → Option ℕ
unfolding starts_with
find_from pattern at [] = if starts_with pattern [] then some at else none
find_from pattern at (c ∷ cs) =
    let rest = find_from pattern (at + 1) cs in
    if starts_with pattern (c ∷ cs) then some at else rest

-- `BLOCKS_KEY`.
abbrev pub blocks_key : Codes
blocks_key = b'"' ∷ b'b' ∷ b'l' ∷ b'o' ∷ b'c' ∷ b'k' ∷ b's' ∷ b'"' ∷ []

abbrev pub bracket : Codes
bracket = b'[' ∷ []

abbrev pub past : Option ℕ → Option ℕ
past none = none
past (some found) = some (found + 1)

unfoldable pub open_after : Codes → Option ℕ → Option ℕ
unfolding find_from
open_after buffer none = none
open_after buffer (some head) =
    past (find_from bracket (head + length blocks_key) (drop (head + length blocks_key) buffer))

-- `_open_array`: the new cursor, or `none` for false.
unfoldable pub open_array : Codes → ℕ → Option ℕ
unfolding open_after find_from
open_array buffer cursor = open_after buffer (find_from blocks_key cursor (drop cursor buffer))

-- `buffer[start : end]`. A start of -1 is the last position.
unfoldable pub slice : Option ℕ → ℕ → Codes → Codes
slice none end buffer = drop (length buffer - 1) (take end buffer)
slice (some start) end buffer = drop start (take end buffer)

-- A pass of the loop goes on to the next character, or returns.
pub data Pass : Type 0 where
  goes_on returns : Scan → Pass

abbrev pub taken : Scan → Loaded → Pass
taken s not_json = returns (record s { done = true })
taken s other = goes_on s
taken s (object block) = goes_on (record s { blocks = s.blocks ++ block ∷ [] })

unfoldable pub open_brace : ℕ → Scan → Scan
unfolding is_zero deeper
open_brace index s = record s {
  start = if is_zero s.depth then some index else s.start;
  depth = deeper s.depth;
}

unfoldable pub in_text : ℕ → Scan → Scan
in_text char s =
    if s.escaped
    then record s { escaped = false }
    else if char == b'\\'
    then record s { escaped = true }
    else if char == b'"'
    then record s { in_string = false }
    else s

abbrev pub settle : Scanner → Scan × ℕ → Scanner
settle s (scan, cursor) = record s { scan = scan; cursor = cursor }

module _ (loads : Codes → Loaded) where
  -- At `}`: `_take` on the object that this brace closes.
  unfoldable pub close_brace : Codes → ℕ → Scan → Pass
  unfolding is_zero shallower slice
  close_brace buffer index s =
      let closed = record s { depth = shallower s.depth } in
      if is_zero closed.depth
      then taken closed (loads (slice s.start (index + 1) buffer))
      else goes_on closed

  -- The body of the loop of `advance`.
  unfoldable pub pass : Codes → ℕ → ℕ → Scan → Pass
  unfolding in_text open_brace close_brace is_zero
  pass buffer index char s =
      if s.in_string
      then goes_on (in_text char s)
      else if char == b'"'
      then goes_on (record s { in_string = true })
      else if char == b'{'
      then goes_on (open_brace index s)
      else if char == b'}'
      then close_brace buffer index s
      else if (char == b']') && is_zero s.depth
      then returns (record s { done = true })
      else goes_on s

  -- The loop, on the characters from `index` on: the state and the cursor that it leaves.
  unfoldable pub loop : Codes → Codes → ℕ → Pass → Scan × ℕ
  unfolding pass
  loop buffer rest index (returns s) = (s, index)
  loop buffer [] index (goes_on s) = (s, index)
  loop buffer (char ∷ rest) index (goes_on s) =
      loop buffer rest (index + 1) (pass buffer index char s)

  abbrev pub read_on : Scanner → Scanner
  read_on s = settle s (loop s.buffer (drop s.cursor s.buffer) s.cursor (goes_on s.scan))

  abbrev pub opened : Scanner → Option ℕ → Scanner
  opened s none = s
  opened s (some cursor) = read_on (record s { in_array = true; cursor = cursor })

  unfoldable pub advance : Scanner → Scanner
  unfolding loop open_array
  advance s =
      if s.scan.done
      then s
      else if s.in_array
      then read_on s
      else opened s (open_array s.buffer s.cursor)
