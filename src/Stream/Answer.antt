-- ===== src/Stream/Answer.antt =====
-- `advance` (src/hrmosaic/agent/answer_stream.py) on the body of an answer whose array is well formed.
use quantic_mosaic.Prelude.{
  ℕ, zero, suc, ◌+◌, ◌≡◌, refl, sym, ap, ◌∙◌, true, Option, none, some, List, [], ◌∷◌, ◌++◌, map,
  length, length-append, take, arith, All,
}
use mathlib.Core.List.{append_assoc, append-nil}
use mathlib.Core.Path.{subst}
use quantic_mosaic.Prelude.Int.{pos}
use quantic_mosaic.Windows.{Codes}
use quantic_mosaic.Stream.{
  Block, Loaded, object, Scan, goes_on, close_brace, pass, loop, push, advance, is_zero, shallower,
  deeper, open_brace, open_array, open_after, find_from, starts_with, fresh_scanner, blocks_key,
  slice,
}
use quantic_mosaic.Stream.Objects.{Body, inside, outside, loop-inside, at_index}

-- What stands between the objects of the array.
pub data Gap : Type 0 where
  comma space newline : Gap

abbrev gap_code : Gap → ℕ
gap_code comma = b','
gap_code space = b' '
gap_code newline = b'\n'

unfoldable pub gap_text : List Gap → Codes
gap_text gaps = map gap_code gaps

unfoldable pub object_text : Body → Codes
unfolding inside
object_text body = b'{' ∷ (inside body ++ b'}' ∷ [])

-- The objects of the array, each after its gap.
unfoldable pub objects : List (List Gap × Body) → Codes
unfolding gap_text object_text
objects [] = []
objects ((gap, body) ∷ more) = gap_text gap ++ (object_text body ++ objects more)

-- The body of an answer: the array first, then anything.
unfoldable pub answer_text : List (List Gap × Body) → List Gap → Codes → Codes
unfolding gap_text objects
answer_text items gap tail =
    (b'{' ∷ blocks_key) ++ (b':' ∷ b'[' ∷ (objects items ++ (gap_text gap ++ b']' ∷ tail)))

take_all : (here after : Codes) (n : ℕ) → n ≡ length here → take n (here ++ after) ≡ here
take_all [] after zero e = refl
take_all [] after (suc n) e = absurd (omega arith)
take_all (c ∷ here) after zero e = absurd (omega arith)
take_all (c ∷ here) after (suc n) e = ap (c ∷◌) (take_all here after n (omega arith))

slice-middle :
    (before here after : Codes) (start end : ℕ)
    → start ≡ length before
    → end ≡ start + length here
    → slice (some start) end (before ++ (here ++ after)) ≡ here
unfolding slice
slice-middle [] here after zero end e f = take_all here after end (omega arith)
slice-middle [] here after (suc start) end e f = absurd (omega arith)
slice-middle (c ∷ before) here after zero end e f = absurd (omega arith)
slice-middle (c ∷ before) here after (suc start) zero e f = absurd (omega arith)
slice-middle (c ∷ before) here after (suc start) (suc end) e f =
    slice-middle before here after start end (omega arith) (omega arith)

module _ (loads : Codes → Loaded) (block_of : Body → Block) where
  -- `json.loads` reads the texts of the objects.
  abbrev pub Reads : List (List Gap × Body) → Type 0
  Reads items = All (λ item. loads (object_text item.1) ≡ object (block_of item.1)) items

  close-object :
      (buffer : Codes) (blocks : List Block) (body : Body) (at end : ℕ)
      → loads (object_text body) ≡ object (block_of body)
      → slice (some at) (end + 1) buffer ≡ object_text body
      → pass loads buffer end b'}' (outside blocks (pos 1) (some at))
        ≡ goes_on (outside (blocks ++ block_of body ∷ []) (pos 0) (some at))
  unfolding pass close_brace is_zero shallower
  close-object buffer blocks body at end h e = rw (e, h) refl

  loop-object :
      (buffer before : Codes) (blocks : List Block) (body : Body) (rest : Codes) (i : ℕ)
      (start : Option ℕ)
      → loads (object_text body) ≡ object (block_of body)
      → buffer ≡ before ++ (object_text body ++ rest)
      → i ≡ length before
      → loop loads buffer (object_text body ++ rest) i (goes_on (outside blocks (pos 0) start))
        ≡ loop loads buffer rest
            (i + length (object_text body))
            (goes_on (outside (blocks ++ block_of body ∷ []) (pos 0) (some i)))
  unfolding object_text loop pass open_brace is_zero deeper
  loop-object buffer before blocks body rest i start h e f =
      ap (λ more. loop loads buffer more (i + 1) (goes_on (outside blocks (pos 1) (some i))))
        (append_assoc (inside body) (b'}' ∷ []) rest)
      ∙ loop-inside loads buffer blocks (some i) body 0 (b'}' ∷ rest) (i + 1)
      ∙ ap (loop loads buffer rest (i + 1 + length (inside body) + 1)) (
          close-object buffer blocks body i (i + 1 + length (inside body)) h (
            ap (slice (some i) (i + 1 + length (inside body) + 1)) e
            ∙ slice-middle before (object_text body) rest i (i + 1 + length (inside body) + 1) f
                (omega (arith, length-append (inside body) (b'}' ∷ [])))))
      ∙ at_index loads buffer rest _ _ _ (omega (arith, length-append (inside body) (b'}' ∷ [])))

  loop-gap :
      (buffer : Codes) (blocks : List Block) (gap : List Gap) (rest : Codes) (i : ℕ)
      (start : Option ℕ)
      → loop loads buffer (gap_text gap ++ rest) i (goes_on (outside blocks (pos 0) start))
        ≡ loop loads buffer rest
            (i + length (gap_text gap))
            (goes_on (outside blocks (pos 0) start))
  unfolding gap_text loop pass
  loop-gap buffer blocks [] rest i start =
      at_index loads buffer rest (outside blocks (pos 0) start) _ _ (omega arith)
  loop-gap buffer blocks (comma ∷ gap) rest i start =
      loop-gap buffer blocks gap rest (i + 1) start
      ∙ at_index loads buffer rest (outside blocks (pos 0) start) _ _ (omega arith)
  loop-gap buffer blocks (space ∷ gap) rest i start =
      loop-gap buffer blocks gap rest (i + 1) start
      ∙ at_index loads buffer rest (outside blocks (pos 0) start) _ _ (omega arith)
  loop-gap buffer blocks (newline ∷ gap) rest i start =
      loop-gap buffer blocks gap rest (i + 1) start
      ∙ at_index loads buffer rest (outside blocks (pos 0) start) _ _ (omega arith)

  abbrev pub blocks_of : List (List Gap × Body) → List Block
  blocks_of [] = []
  blocks_of ((gap, body) ∷ more) = block_of body ∷ blocks_of more

  -- The blocks and the end of a scan.
  abbrev Ends : List Block → Scan × ℕ → Type 0
  Ends blocks (s, at) = (s.blocks ≡ blocks) × (s.done ≡ true)

  close_bracket :
      (buffer : Codes) (blocks : List Block) (tail : Codes) (at : ℕ) (start : Option ℕ)
      → Ends blocks (loop loads buffer (b']' ∷ tail) at (goes_on (outside blocks (pos 0) start)))
  unfolding loop pass is_zero
  close_bracket buffer blocks [] at start = (refl, refl)
  close_bracket buffer blocks (c ∷ tail) at start = (refl, refl)

  loop-close :
      (buffer : Codes) (blocks : List Block) (gap : List Gap) (tail : Codes) (i : ℕ)
      (start : Option ℕ)
      → Ends blocks (
          loop loads buffer
            (gap_text gap ++ b']' ∷ tail)
            i
            (goes_on (outside blocks (pos 0) start)))
  loop-close buffer blocks gap tail i start =
      subst (Ends blocks) (sym (loop-gap buffer blocks gap (b']' ∷ tail) i start))
        (close_bracket buffer blocks tail (i + length (gap_text gap)) start)

  loop-objects :
      (buffer before : Codes) (blocks : List Block) (items : List (List Gap × Body))
      (gap : List Gap) (tail : Codes) (i : ℕ) (start : Option ℕ)
      → Reads items
      → buffer ≡ before ++ (objects items ++ (gap_text gap ++ b']' ∷ tail))
      → i ≡ length before
      → Ends (blocks ++ blocks_of items) (
          loop loads buffer
            (objects items ++ (gap_text gap ++ b']' ∷ tail))
            i
            (goes_on (outside blocks (pos 0) start)))
  unfolding objects
  loop-objects buffer before blocks [] gap tail i start h e f =
      subst
        (λ b. Ends b (
          loop loads buffer (gap_text gap ++ b']' ∷ tail) i
            (goes_on (outside blocks (pos 0) start))))
        (sym (append-nil blocks)) (loop-close buffer blocks gap tail i start)
  loop-objects buffer before blocks ((lead, body) ∷ items) gap tail i start h e f =
      let l = gap_text lead in
      let o = object_text body in
      let rest = objects items ++ (gap_text gap ++ b']' ∷ tail) in
      let eq =
        append_assoc l (o ++ objects items) (gap_text gap ++ b']' ∷ tail)
        ∙ ap (l ++◌) (append_assoc o (objects items) (gap_text gap ++ b']' ∷ tail)) in
      let at_object = e ∙ ap (before ++◌) eq ∙ sym (append_assoc before l (o ++ rest)) in
      let after_object = at_object ∙ sym (append_assoc (before ++ l) o rest) in
      let ends =
        loop-objects buffer ((before ++ l) ++ o) (blocks ++ block_of body ∷ []) items gap tail
          (i + length l + length o) (some (i + length l)) h.1 after_object
          (omega (arith, length-append (before ++ l) o, length-append before l)) in
      let run =
        ap (λ r. loop loads buffer r i (goes_on (outside blocks (pos 0) start))) eq
        ∙ loop-gap buffer blocks lead (o ++ rest) i start
        ∙ loop-object buffer (before ++ l) blocks body rest (i + length l) start h.0 at_object
            (omega (arith, length-append before l)) in
      subst (Ends (blocks ++ (block_of body ∷ blocks_of items))) (sym run) (
        subst
          (λ b. Ends b (
            loop loads buffer rest (i + length l + length o)
              (goes_on (outside (blocks ++ block_of body ∷ []) (pos 0) (some (i + length l))))))
          (append_assoc blocks (block_of body ∷ []) (blocks_of items)) ends)

  -- The array of an answer opens at its first bracket.
  open-answer :
      (items : List (List Gap × Body)) (gap : List Gap) (tail : Codes)
      → open_array (answer_text items gap tail) 0 ≡ some 11
  unfolding open_array open_after find_from starts_with answer_text
  open-answer items gap tail = refl

  -- A scan of an answer whose body starts with a well-formed array finds each object of the array,
  -- in order, and is done: strings that hold braces or quotes, nested objects and whatever follows
  -- the array change nothing. The condition is that `json.loads` reads the texts of these objects.
  pub advance-answer :
      (items : List (List Gap × Body)) (gap : List Gap) (tail : Codes)
      → Reads items
      → let s = advance loads (push (answer_text items gap tail) fresh_scanner) in
        (s.scan.blocks ≡ blocks_of items) × (s.scan.done ≡ true)
  unfolding advance open_array open_after find_from starts_with answer_text
  advance-answer items gap tail h =
      loop-objects (answer_text items gap tail)
        (b'{' ∷ b'"' ∷ b'b' ∷ b'l' ∷ b'o' ∷ b'c' ∷ b'k' ∷ b's' ∷ b'"' ∷ b':' ∷ b'[' ∷ []) [] items
        gap tail 11 none h refl refl
