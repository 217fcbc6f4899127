-- ===== src/Stream/Find.antt =====
-- Searching a text that grows at its end (src/hrmosaic/agent/answer_stream.py): what has been found
-- stays found, in the same place.
use quantic_mosaic.Prelude.{
  ℕ, zero, suc, ◌+◌, ◌≤◌, ◌≡◌, refl, ap, true, Option, none, some, [], ◌∷◌, ◌++◌, length, take,
  drop, Option-cases, arith, inl, inr,
}
use quantic_mosaic.Windows.{Codes}
use quantic_mosaic.Stream.{
  starts_with, find_from, open_after, open_array, slice, blocks_key, bracket, past,
}

pub take-append : (k : ℕ) (xs ys : Codes) → k ≤ length xs → take k (xs ++ ys) ≡ take k xs
take-append zero xs ys h = refl
take-append (suc k) [] ys h = absurd (omega arith)
take-append (suc k) (x ∷ xs) ys h = ap (x ∷◌) (take-append k xs ys (omega arith))

pub drop-append : (k : ℕ) (xs ys : Codes) → k ≤ length xs → drop k (xs ++ ys) ≡ drop k xs ++ ys
drop-append zero xs ys h = refl
drop-append (suc k) [] ys h = absurd (omega arith)
drop-append (suc k) (x ∷ xs) ys h = drop-append k xs ys (omega arith)

pub length-drop : (k : ℕ) (xs : Codes) → k ≤ length xs → length (drop k xs) + k ≡ length xs
length-drop zero xs h = omega arith
length-drop (suc k) [] h = absurd (omega arith)
length-drop (suc k) (x ∷ xs) h = omega (arith, length-drop k xs (omega arith))

pub drop_all : (xs : Codes) → drop (length xs) xs ≡ []
drop_all [] = refl
drop_all (x ∷ xs) = drop_all xs

-- A prefix that fits in a text is one of every longer text, and only then.
starts_with-append :
    (ps xs ys : Codes) → length ps ≤ length xs → starts_with ps (xs ++ ys) ≡ starts_with ps xs
unfolding starts_with
starts_with-append [] xs ys h = refl
starts_with-append (p ∷ ps) [] ys h = absurd (omega arith)
starts_with-append (p ∷ ps) (x ∷ xs) ys h = rw (starts_with-append ps xs ys (omega arith))

starts_with-length : (ps xs : Codes) → starts_with ps xs ≡ true → length ps ≤ length xs
unfolding starts_with
starts_with-length [] xs h = omega arith
starts_with-length (p ∷ ps) [] h = cc
starts_with-length (p ∷ ps) (x ∷ xs) h = ground (arith, starts_with-length ps xs)

-- What is found lies within the text.
pub find_from_bound :
    (ps : Codes) (i : ℕ) (xs : Codes) {at : ℕ}
    → find_from ps i xs ≡ some at
    → at + length ps ≤ i + length xs
unfolding find_from
find_from_bound ps i [] h = ground (arith, starts_with-length ps [])
find_from_bound ps i (x ∷ xs) {at} h =
    ground (arith, starts_with-length ps (x ∷ xs), find_from_bound ps (i + 1) xs {at = at})

find_from_least : (ps : Codes) (i : ℕ) (xs : Codes) {at : ℕ} → find_from ps i xs ≡ some at → i ≤ at
unfolding find_from
find_from_least ps i [] h = ground arith
find_from_least ps i (x ∷ xs) {at} h = ground (arith, find_from_least ps (i + 1) xs {at = at})

pub find_from-append :
    (ps : Codes) (i : ℕ) (xs ys : Codes) {at : ℕ}
    → find_from ps i xs ≡ some at
    → find_from ps i (xs ++ ys) ≡ some at
unfolding find_from starts_with
find_from-append [] i [] [] h = h
find_from-append [] i [] (y ∷ ys) h = h
find_from-append (p ∷ ps) i [] ys h = cc
find_from-append ps i (x ∷ xs) ys {at} h = ground (
  arith,
  starts_with-length ps (x ∷ xs),
  starts_with-append ps (x ∷ xs) ys,
  find_from_bound ps i (x ∷ xs) h,
  find_from_least ps i (x ∷ xs) h,
  find_from-append ps (i + 1) xs ys {at = at},
)

past-some :
    (o : Option ℕ) {next : ℕ}
    → past o ≡ some next
    → (found : ℕ) × (o ≡ some found) × (next ≡ found + 1)
past-some none h = cc
past-some (some found) h = (found, refl, ground arith)

abbrev second_find : Codes → ℕ → Option ℕ
second_find buffer head =
    find_from bracket (head + length blocks_key) (drop (head + length blocks_key) buffer)

module _ (buffer : Codes) where
  -- What lies after a position of the buffer is a part of it.
  find_in_bound :
      (ps : Codes) (from : ℕ) {at : ℕ}
      → from ≤ length buffer
      → find_from ps from (drop from buffer) ≡ some at
      → at + length ps ≤ length buffer
  find_in_bound ps from {at} h e =
      omega
        (arith, find_from_bound ps from (drop from buffer) {at = at} e, length-drop from buffer h)

  find_in-append :
      (ps more : Codes) (from : ℕ) {at : ℕ}
      → from ≤ length buffer
      → find_from ps from (drop from buffer) ≡ some at
      → find_from ps from (drop from (buffer ++ more)) ≡ some at
  find_in-append ps more from h e =
      rw (drop-append from buffer more h) (find_from-append ps from (drop from buffer) more e)

  open_after_bound :
      (head : ℕ) {next : ℕ}
      → head + length blocks_key ≤ length buffer
      → open_after buffer (some head) ≡ some next
      → next ≤ length buffer
  unfolding open_after
  open_after_bound head {next} h e =
      let (found, e', n) = past-some (second_find buffer head) e in
      omega (arith, find_in_bound bracket (head + length blocks_key) h e')

  no_head : {next : ℕ} → ¬ (open_after buffer none ≡ some next)
  unfolding open_after
  no_head e = cc

  open_after-append :
      (more : Codes) (head : ℕ) {next : ℕ}
      → head + length blocks_key ≤ length buffer
      → open_after buffer (some head) ≡ some next
      → open_after (buffer ++ more) (some head) ≡ some next
  unfolding open_after
  open_after-append more head {next} h e =
      let (found, e', n) = past-some (second_find buffer head) e in
      rw (find_in-append bracket more (head + length blocks_key) h e', n)

  -- `_open_array` finds the same bracket once more has arrived, and the cursor stays in the buffer.
  pub open_array-append :
      (more : Codes) (cursor : ℕ) {next : ℕ}
      → cursor ≤ length buffer
      → open_array buffer cursor ≡ some next
      → (open_array (buffer ++ more) cursor ≡ some next) × (next ≤ length buffer)
  unfolding open_array
  open_array-append more cursor {next} h e =
      elim (Option-cases (find_from blocks_key cursor (drop cursor buffer))) [
        | inl n ↦ absurd (no_head (rw n at e))
        | inr (head, f) ↦
            let key = find_in_bound blocks_key cursor h f in
            let e' = rw f at e in
            (
              rw (find_in-append blocks_key more cursor h f) (open_after-append more head key e'),
              open_after_bound head key e',
            )
      ]

-- A slice that starts at a position and ends in the text is the same in a longer text.
pub slice-append :
    (start end : ℕ) (xs ys : Codes)
    → end ≤ length xs
    → slice (some start) end (xs ++ ys) ≡ slice (some start) end xs
unfolding slice
slice-append start end xs ys h = ap (drop start) (take-append end xs ys h)
