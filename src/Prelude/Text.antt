-- ===== src/Prelude/Text.antt =====
-- Texts: Python's `startswith`, `removeprefix`, `partition` and `in` on a tuple of texts, and a
-- dictionary keyed by texts as an association list in insertion order.
use Prim.Native.Nat.{ℕ, zero, suc}
use Prim.Native.Char.{code}
use Prim.Native.String.{String}
use mathlib.Core.Path.{◌≡◌, refl}
use mathlib.Core.Bool.{Bool, true, false, ◌||◌}
use mathlib.Core.Option.{Option, none, some}
use mathlib.Core.List.{List, [], ◌∷◌}
use native.Mathlib.Omega.{arith}
use text.Mathlib.Text.{◌==◌ as str_eq}
use text.Mathlib.TextEquality.{eq_iff}
use quantic_mosaic.Prelude.Tests.{◌==◌, if◌then◌else◌}

-- `text.startswith(prefix)` with `text.removeprefix(prefix)`: what follows the prefix, if it is one.
unfoldable pub strip_prefix? : String → String → Option String
strip_prefix? String.[] s = some s
strip_prefix? (String.◌∷◌ c p) String.[] = none
strip_prefix? (String.◌∷◌ c p) (String.◌∷◌ d s) =
    let rest = strip_prefix? p s in if code c == code d then rest else none

unfoldable pub before : ℕ → String → String
before sep String.[] = String.[]
before sep (String.◌∷◌ c s) =
    let rest = before sep s in if code c == sep then String.[] else String.◌∷◌ c rest

unfoldable pub after : ℕ → String → String
after sep String.[] = String.[]
after sep (String.◌∷◌ c s) = let rest = after sep s in if code c == sep then s else rest

-- `text.startswith(prefix)` and `word in text`.
unfoldable pub starts : String → String → Bool
unfolding strip_prefix?
starts p s = elim (strip_prefix? p s) [ none ↦ false | some _ ↦ true ]

unfoldable pub contains : String → String → Bool
unfolding starts
contains word String.[] = starts word ""
contains word (String.◌∷◌ c s) = let rest = contains word s in starts word (String.◌∷◌ c s) || rest

-- `text[:n]` and `len(text)`.
unfoldable pub first : ℕ → String → String
first zero s = ""
first (suc n) String.[] = ""
first (suc n) (String.◌∷◌ c s) = let rest = first n s in String.◌∷◌ c rest

unfoldable pub size : String → ℕ
size String.[] = 0
size (String.◌∷◌ c s) = suc (size s)

-- `name in (…)`.
abbrev pub member : String → List String → Bool
member name [] = false
member name (x ∷ xs) = str_eq name x || member name xs

module _ {ℓ} {V : Type ℓ} where
  -- `mapping.get(key)`.
  abbrev pub lookup : String → List (String × V) → Option V
  lookup k [] = none
  lookup k ((j, v) ∷ m) = if str_eq j k then some v else lookup k m

  -- `mapping[key] = value`: in place where the key is there, at the end where it is not.
  abbrev pub insert : String → V → List (String × V) → List (String × V)
  insert key value [] = (key, value) ∷ []
  insert key value ((old, was) ∷ rest) =
      if str_eq old key then (old, value) ∷ rest else (old, was) ∷ insert key value rest

  pub lookup-insert :
      (new key : String) (value : V) (entries : List (String × V))
      → lookup key (insert new value entries)
        ≡ (if str_eq new key then some value else lookup key entries)
  lookup-insert new key value [] = refl
  lookup-insert new key value ((old, was) ∷ rest) =
      ground
        (lookup-insert new key value rest, eq_iff new key, eq_iff old new, eq_iff old key, arith)
