-- ===== src/Windows/Cover.antt =====
-- The windows of a text (src/hrmosaic/rag/chunk.py): the loop ends, and its windows leave no gap.
use quantic_mosaic.Prelude.{
  ℕ, zero, suc, ◌+◌, ◌-◌, ◌≤◌, ◌<◌, max, min, ◌≡◌, refl, ◌∙◌, inl, inr, Bool, true, false, Option,
  none, some, List, [], ◌∷◌, length, leb, ltb, arith, leb→le, ltb→lt, lt→ltb, ◌&&◌, ◌⊎◌, Bool-cases,
  Option-cases, if◌then◌else◌,
}
use quantic_mosaic.Windows.{
  Codes, match_end, choose, space_at, last_found, or_space, or_cut, cut, Limits, raw_end,
  window_end, windows_from, spans,
}

-- What is found stands after the position it is found at, and no later than `high`.
record Finds (high : ℕ) (at : ℕ → Option ℕ) : Type 0 where
  place : (i found : ℕ) → at i ≡ some found → i < found × found ≤ high

choose-place :
    (stops closer alone : Bool) (high i found : ℕ)
    → choose stops (leb (i + 2) high && closer) (leb (i + 1) high && alone) i ≡ some found
    → i < found × found ≤ high
choose-place false closer alone high i found h = cc h
choose-place true closer alone high i found h = elim (Bool-cases (leb (i + 2) high && closer)) [
  | inl e ↦
      let same : i + 2 ≡ found = cc (rw e at h) in
      let l : leb (i + 2) high ≡ true = ground (arith, e) in
      let le = leb→le (i + 2) high l in (omega (arith, same), omega (arith, same, le))
  | inr e ↦ short (Bool-cases (leb (i + 1) high && alone)) (rw e at h)
]
  where
    short :
        ((leb (i + 1) high && alone) ≡ true) ⊎ ((leb (i + 1) high && alone) ≡ false)
        → (if leb (i + 1) high && alone then some (i + 1) else none) ≡ some found
        → i < found × found ≤ high
    short (inr e) g = cc (rw e at g)
    short (inl e) g =
        let same : i + 1 ≡ found = cc (rw e at g) in
        let l : leb (i + 1) high ≡ true = ground (arith, e) in
        let le = leb→le (i + 1) high l in (omega (arith, same), omega (arith, same, le))

match-Finds : (text : Codes) (high : ℕ) → Finds high (match_end text high)
unfolding match_end
match-Finds text high = record { place = λ i found h. choose-place _ _ _ high i found h }

space-at : (text : Codes) (high i found : ℕ) → space_at text high i ≡ some found → i ≡ found
unfolding space_at
space-at text high i found h = ground (arith, h)

last-place :
    (at : ℕ → Option ℕ) (low n found : ℕ)
    → last_found at low n ≡ some found
    → (i : ℕ) × (low ≤ i) × (i < low + n) × (at i ≡ some found)
unfolding last_found
last-place at low zero found h = cc h
last-place at low (suc n) found h = elim (Option-cases (at (low + n))) [
  | inl e ↦ let (i, a, b, c) = last-place at low n found (rw e at h) in (i, a, omega (arith, b), c)
  | inr (f, e) ↦ (low + n, omega arith, omega arith, e ∙ rw e at h)
]

-- The cut is after `low` and no later than `high`.
or_cut-place :
    (text : Codes) (low high : ℕ) (a b : Option ℕ)
    → low < high
    → last_found (space_at text high) low (high - low) ≡ a
    → last_found (match_end text high) low (high - low) ≡ b
    → low < or_cut (or_space low high a) b × or_cut (or_space low high a) b ≤ high
unfolding or_cut or_space
or_cut-place text low high a (some found) lt p q =
    let (i, l, m, e) = last-place (match_end text high) low (high - low) found q in
    let (x, y) = (match-Finds text high).place i found e in (omega (arith, l, x), y)
or_cut-place text low high none none lt p q = (lt, omega arith)
or_cut-place text low high (some space) none lt p q =
    let (i, l, m, e) = last-place (space_at text high) low (high - low) space p in
    let same = space-at text high i space e in
    elim (Bool-cases (ltb low space)) [
      | inl y ↦
          let lt' = ltb→lt low space y in rw y (omega (arith, lt'), omega (arith, m, same, lt))
      | inr n ↦ rw n (lt, omega arith)
    ]

cut-place :
    (text : Codes) (low high : ℕ) → low < high → low < cut text low high × cut text low high ≤ high
unfolding cut
cut-place text low high lt = or_cut-place text low high _ _ lt refl refl

-- The windows of a text of this length, from the end `reached` of the window before: each starts at or
-- before that end and ends after it, and the last one ends where the text does.
abbrev pub Tiles : ℕ → ℕ → List (ℕ × ℕ) → Type 0
Tiles length reached [] = reached ≡ length
Tiles length reached ((start, end) ∷ rest) =
    (start ≤ reached) × (reached < end) × (end ≤ length) × Tiles length end rest

module _ (limits : Limits) (text : Codes)
    (overlaps : limits.overlap_chars < limits.window_chars) where
  raw-place :
      (start previous_end : ℕ)
      → start < length text
      → previous_end < length text
      → previous_end ≤ start + limits.overlap_chars
      → previous_end < raw_end limits (length text) start
        × raw_end limits (length text) start ≤ length text
  raw-place start previous_end lt before_end near =
      elim (Bool-cases
        (ltb (length text - min (start + limits.window_chars) (length text)) limits.min_chars)) [
          | inl e ↦ rw e (before_end, omega arith)
          | inr e ↦ rw e (omega (arith, overlaps, before_end, near), omega arith)
        ]

  window-place :
      (start previous_end : ℕ)
      → start < length text
      → previous_end < length text
      → previous_end ≤ start + limits.overlap_chars
      → previous_end < window_end limits text start previous_end
        × window_end limits text start previous_end ≤ length text
  unfolding window_end
  window-place start previous_end lt before_end near =
      let (after_previous, within) = raw-place start previous_end lt before_end near in
      elim (Bool-cases (ltb (raw_end limits (length text) start) (length text))) [
        | inr e ↦ rw e (after_previous, within)
        | inl e ↦
            elim (Bool-cases (
              ltb (max (start + limits.min_chars) (previous_end + 1))
                (raw_end limits (length text) start))) [
                  | inr f ↦ rw (e, f) (after_previous, within)
                  | inl f ↦
                      let (x, y) =
                        cut-place text (max (start + limits.min_chars) (previous_end + 1))
                          (raw_end limits (length text) start) (ltb→lt _ _ f) in
                      rw (e, f) (omega (arith, x), omega (arith, y, within))
                ]
      ]

  abbrev Done : ℕ → ℕ → ℕ → Type 0
  Done fuel start previous_end =
      (found : List (ℕ × ℕ)) × (windows_from fuel limits text start previous_end ≡ some found)
      × Tiles (length text) previous_end found

  last-Done :
      (fuel start previous_end : ℕ)
      → start ≤ previous_end
      → start < length text
      → previous_end < window_end limits text start previous_end
      → window_end limits text start previous_end ≤ length text
      → leb (length text) (window_end limits text start previous_end) ≡ true
      → Done (suc fuel) start previous_end
  unfolding windows_from
  last-Done fuel start previous_end le lt a b e =
      let there = leb→le _ _ e in
      (
        (start, window_end limits text start previous_end) ∷ [],
        rw (lt→ltb start (length text) lt, e),
        (le, a, b, omega (arith, b, there)),
      )

  next-Done :
      (fuel start previous_end : ℕ)
      → start ≤ previous_end
      → start < length text
      → previous_end < window_end limits text start previous_end
      → window_end limits text start previous_end ≤ length text
      → leb (length text) (window_end limits text start previous_end) ≡ false
      → Done fuel
          (max (window_end limits text start previous_end - limits.overlap_chars) (start + 1))
          (window_end limits text start previous_end)
      → Done (suc fuel) start previous_end
  unfolding windows_from
  next-Done fuel start previous_end le lt a b e (found, g, t) = (
    (start, window_end limits text start previous_end) ∷ found,
    rw (lt→ltb start (length text) lt, e, g),
    (le, a, b, t),
  )

  loop-Done :
      (fuel start previous_end : ℕ)
      → start ≤ previous_end
      → previous_end < length text
      → previous_end ≤ start + limits.overlap_chars
      → length text < start + fuel
      → Done fuel start previous_end
  loop-Done zero start previous_end le before_end near enough =
      absurd (omega (arith, le, before_end, enough))
  loop-Done (suc fuel) start previous_end le before_end near enough =
      let lt : start < length text = omega (arith, le, before_end) in
      let (a, b) = window-place start previous_end lt before_end near in
      elim (Bool-cases (leb (length text) (window_end limits text start previous_end))) [
        | inl e ↦ last-Done fuel start previous_end le lt a b e
        | inr e ↦
            let continues : window_end limits text start previous_end < length text =
              ground (arith, e) in
            next-Done fuel start previous_end le lt a b e (
              loop-Done fuel _ _ (omega (arith, le, a)) continues (omega arith)
                (omega (arith, enough)))
      ]

  -- Where the overlap is less than the window, the loop of `windows` ends on every text that is not
  -- empty, with the fuel that it is given: its windows leave no gap, each ends after the one before it
  -- and within the text, and the last ends where the text ends.
  pub spans-Tiles :
      0 < length text
      → (found : List (ℕ × ℕ)) × (spans limits text ≡ some found) × Tiles (length text) 0 found
  unfolding spans
  spans-Tiles full = loop-Done (length text + 1) 0 0 (omega arith) full (omega arith) (omega arith)
