-- ===== src/Tests/Stream.antt =====
-- Blocks that leave while an answer is written (src/hrmosaic/agent/answer_stream.py), on a small body.
use quantic_mosaic.Prelude.{
  ℕ, ◌≡◌, refl, Bool, true, false, ◌&&◌, none, some, List, [], ◌∷◌, String, ◌<>◌, length, ◌==◌,
  if◌then◌else◌,
}
use quantic_mosaic.Windows.{Codes}
use quantic_mosaic.Stream.{Block, Loaded, not_json, object, fresh_scanner, push, advance}
use quantic_mosaic.Stream.Assembler.{publish, start, stream}
use quantic_mosaic.Stream.Publish.{whole, stream-whole}
use quantic_mosaic.Stream.Objects.{Symbol, verbatim, escaped, Body, end, plain, text, braces}
use quantic_mosaic.Stream.Answer.{
  Gap, comma, space, object_text, answer_text, blocks_of, advance-answer,
}

-- {"text":"{"} and {"text":"\\"","meta":{}}.
abbrev key : List Symbol
key =
    verbatim b't' refl refl
    ∷ verbatim b'e' refl refl
    ∷ verbatim b'x' refl refl
    ∷ verbatim b't' refl refl
    ∷ []

abbrev meta : List Symbol
meta =
    verbatim b'm' refl refl
    ∷ verbatim b'e' refl refl
    ∷ verbatim b't' refl refl
    ∷ verbatim b'a' refl refl
    ∷ []

abbrev one : Body
one = text key (plain b':' refl refl refl (text (verbatim b'{' refl refl ∷ []) end))

abbrev two : Body
two = text key (
    plain b':' refl refl refl (
      text (escaped b'"' ∷ [])
        (plain b',' refl refl refl (text meta (plain b':' refl refl refl (braces end end))))))

abbrev same_codes : Codes → Codes → Bool
same_codes [] [] = true
same_codes [] (d ∷ ds) = false
same_codes (c ∷ cs) [] = false
same_codes (c ∷ cs) (d ∷ ds) = (c == d) && same_codes cs ds

abbrev saying : String → Block
saying words = record { type = none; text = some words; citations = [] }

-- It reads the two objects, and nothing else.
abbrev loads_two : Codes → Loaded
loads_two s =
    if same_codes s (object_text one)
    then object (saying "{")
    else if same_codes s (object_text two)
    then object (saying "\"")
    else not_json

abbrev block_of : Body → Block
block_of body = if same_codes (object_text body) (object_text one) then saying "{" else saying "\""

abbrev items : List (List Gap × Body)
items = ([], one) ∷ (comma ∷ space ∷ [], two) ∷ []

abbrev tail : Codes
tail = b'}' ∷ []

advance-answer_example :
    ((advance loads_two (push (answer_text items (space ∷ []) tail) fresh_scanner)).scan.blocks
      ≡ blocks_of loads_two block_of items)
    × ((advance loads_two (push (answer_text items (space ∷ []) tail) fresh_scanner)).scan.done
        ≡ true)
unfolding object_text
advance-answer_example =
    advance-answer loads_two block_of items (space ∷ []) tail (refl, (refl, tt))

-- A short object has no citations.
abbrev block_from : Codes → Block
block_from s = record {
  type = none;
  text = some "Hello";
  citations = if length s == 2 then [] else "c_1" ∷ [];
}

abbrev loads : Codes → Loaded
loads s = object (block_from s)

abbrev redact : String → String
redact s = s <> "."

-- The body in two deltas, the first of which ends within the second object.
abbrev deltas : List (Codes × ℕ)
deltas =
    (
      b'{' ∷ b'"' ∷ b'b' ∷ b'l' ∷ b'o' ∷ b'c' ∷ b'k' ∷ b's' ∷ b'"' ∷ b':' ∷ b'[' ∷ b'{' ∷ b'}'
          ∷ b',' ∷ b'{' ∷ [],
      5,
    )
    ∷ (b'1' ∷ b'}' ∷ b']' ∷ b'}' ∷ [], 7)
    ∷ []

streams :
    stream loads redact 4 3 deltas (start 0)
    ≡ record { index = 0; type = "policy_fact"; text = "Hello."; citations = [] }
      ∷ record { index = 1; type = "policy_fact"; text = "Hello."; citations = "c_1" ∷ [] }
      ∷ []
unfolding stream
streams = refl

stream-whole_example :
    stream loads redact 4 3 deltas (start 0)
    ≡ publish redact 0 (advance loads (push (whole deltas) fresh_scanner)).scan.blocks
stream-whole_example = stream-whole loads redact 4 3 deltas 0
