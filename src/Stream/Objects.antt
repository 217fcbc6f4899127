-- ===== src/Stream/Objects.antt =====
-- What `_BlockScanner.advance` (src/hrmosaic/agent/answer_stream.py) finds in a well-formed array: the
-- texts of its objects, whole.
use quantic_mosaic.Prelude.{
  ℕ, suc, ◌+◌, ◌≡◌, refl, ap, ◌∙◌, Bool, true, false, ◌&&◌, Option, List, [], ◌∷◌, ◌++◌, length,
  length-append, arith, ◌==◌,
}
use mathlib.Core.List.{append_assoc}
use quantic_mosaic.Prelude.Int.{ℤ, pos}
use quantic_mosaic.Windows.{Codes}
use quantic_mosaic.Stream.{
  Block, Loaded, Scan, goes_on, in_text, open_brace, close_brace, pass, loop, is_zero, deeper,
  shallower,
}

-- A character of a JSON string: one that stands for itself, or one after a backslash.
pub data Symbol : Type 0 where
  verbatim : (c : ℕ) → ((c == b'\\') ≡ false) → ((c == b'"') ≡ false) → Symbol
  escaped : ℕ → Symbol

-- The inside of an object: characters, strings and nested objects.
pub data Body : Type 0 where
  end : Body
  plain :
      (c : ℕ) → ((c == b'"') ≡ false) → ((c == b'{') ≡ false) → ((c == b'}') ≡ false) → Body → Body
  text : List Symbol → Body → Body
  braces : Body → Body → Body

unfoldable pub symbols : List Symbol → Codes
symbols [] = b'"' ∷ []
symbols (verbatim c e f ∷ rest) = c ∷ symbols rest
symbols (escaped c ∷ rest) = b'\\' ∷ c ∷ symbols rest

unfoldable pub inside : Body → Codes
unfolding symbols
inside end = []
inside (plain c e f g rest) = c ∷ inside rest
inside (text s rest) = b'"' ∷ (symbols s ++ inside rest)
inside (braces body rest) = b'{' ∷ (inside body ++ b'}' ∷ inside rest)

-- Outside every string, and in one.
abbrev pub outside : List Block → ℤ → Option ℕ → Scan
outside blocks depth start = record {
  blocks = blocks;
  done = false;
  depth = depth;
  start = start;
  in_string = false;
  escaped = false;
}

abbrev pub in_quotes : List Block → ℤ → Option ℕ → Scan
in_quotes blocks depth start = record (outside blocks depth start) { in_string = true }

and_false : (b : Bool) → (b && false) ≡ false
and_false true = refl
and_false false = refl

module _ (loads : Codes → Loaded) (buffer : Codes) where
  pub at_index :
      (rest : Codes) (s : Scan) (i j : ℕ)
      → i ≡ j
      → loop loads buffer rest i (goes_on s) ≡ loop loads buffer rest j (goes_on s)
  at_index rest s i j e = ap (λ n. loop loads buffer rest n (goes_on s)) e

  module _ (blocks : List Block) (depth : ℤ) (start : Option ℕ) where
    loop-verbatim :
        (c : ℕ) (rest : Codes) (i : ℕ)
        → (c == b'\\') ≡ false
        → (c == b'"') ≡ false
        → loop loads buffer (c ∷ rest) i (goes_on (in_quotes blocks depth start))
          ≡ loop loads buffer rest (i + 1) (goes_on (in_quotes blocks depth start))
    unfolding loop pass in_text
    loop-verbatim c rest i e f = rw (e, f) refl

    loop-symbols :
        (xs : List Symbol) (rest : Codes) (i : ℕ)
        → loop loads buffer (symbols xs ++ rest) i (goes_on (in_quotes blocks depth start))
          ≡ loop loads buffer rest (i + length (symbols xs)) (goes_on (outside blocks depth start))
    unfolding symbols loop pass in_text
    loop-symbols [] rest i = refl
    loop-symbols (verbatim c e f ∷ xs) rest i =
        loop-verbatim c (symbols xs ++ rest) i e f
        ∙ loop-symbols xs rest (i + 1)
        ∙ at_index rest (outside blocks depth start) _ _ (omega arith)
    loop-symbols (escaped c ∷ xs) rest i =
        loop-symbols xs rest (i + 1 + 1)
        ∙ at_index rest (outside blocks depth start) _ _ (omega arith)

  module _ (blocks : List Block) (start : Option ℕ) where
    pass-plain :
        (d c i : ℕ)
        → (c == b'"') ≡ false
        → (c == b'{') ≡ false
        → (c == b'}') ≡ false
        → pass loads buffer i c (outside blocks (pos (suc d)) start)
          ≡ goes_on (outside blocks (pos (suc d)) start)
    unfolding pass is_zero
    pass-plain d c i e f g = rw (e, f, g, and_false (c == b']')) refl

    loop-plain :
        (d c : ℕ) (rest : Codes) (i : ℕ)
        → (c == b'"') ≡ false
        → (c == b'{') ≡ false
        → (c == b'}') ≡ false
        → loop loads buffer (c ∷ rest) i (goes_on (outside blocks (pos (suc d)) start))
          ≡ loop loads buffer rest (i + 1) (goes_on (outside blocks (pos (suc d)) start))
    unfolding loop
    loop-plain d c rest i e f g = ap (loop loads buffer rest (i + 1)) (pass-plain d c i e f g)

    -- The inside of an object leaves the scan as it was.
    pub loop-inside :
        (body : Body) (d : ℕ) (rest : Codes) (i : ℕ)
        → loop loads buffer (inside body ++ rest) i (goes_on (outside blocks (pos (suc d)) start))
          ≡ loop loads buffer rest
              (i + length (inside body))
              (goes_on (outside blocks (pos (suc d)) start))
    unfolding inside loop pass open_brace close_brace is_zero deeper shallower
    loop-inside end d rest i = at_index rest (outside blocks (pos (suc d)) start) _ _ (omega arith)
    loop-inside (plain c e f g body) d rest i =
        loop-plain d c (inside body ++ rest) i e f g
        ∙ loop-inside body d rest (i + 1)
        ∙ at_index rest (outside blocks (pos (suc d)) start) _ _ (omega arith)
    loop-inside (text xs body) d rest i =
        ap (λ more. loop loads buffer more (i + 1) (goes_on (in_quotes blocks (pos (suc d)) start)))
          (append_assoc (symbols xs) (inside body) rest)
        ∙ loop-symbols blocks (pos (suc d)) start xs (inside body ++ rest) (i + 1)
        ∙ loop-inside body d rest (i + 1 + length (symbols xs))
        ∙ at_index rest (outside blocks (pos (suc d)) start) _ _
            (omega (arith, length-append (symbols xs) (inside body)))
    loop-inside (braces body more) d rest i =
        ap
          (λ tail.
            loop loads buffer tail (i + 1) (goes_on (outside blocks (pos (suc (suc d))) start)))
          (append_assoc (inside body) (b'}' ∷ inside more) rest)
        ∙ loop-inside body (suc d) (b'}' ∷ inside more ++ rest) (i + 1)
        ∙ loop-inside more d rest (i + 1 + length (inside body) + 1)
        ∙ at_index rest (outside blocks (pos (suc d)) start) _ _
            (omega (arith, length-append (inside body) (b'}' ∷ inside more)))
