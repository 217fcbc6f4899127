-- ===== src/Stream/Loop.antt =====
-- The loop of `_BlockScanner.advance` (src/hrmosaic/agent/answer_stream.py): it can stop at the end of
-- what has arrived and go on from there.
use quantic_mosaic.Prelude.{
  ℕ, zero, suc, ◌+◌, ◌≤◌, ◌<◌, ◌≡◌, refl, sym, ap, ◌∙◌, inl, inr, Bool, true, false, Option, none,
  some, [], ◌∷◌, ◌++◌, length, Bool-cases, arith, if◌then◌else◌,
}
use quantic_mosaic.Prelude.Int.{ℤ, pos, negsuc}
use quantic_mosaic.Windows.{Codes}
use quantic_mosaic.Stream.{
  Loaded, not_json, other, object, Scan, deeper, shallower, is_zero, Pass, goes_on, returns, taken,
  in_text, open_brace, close_brace, pass, loop,
}
use quantic_mosaic.Stream.Find.{slice-append}

-- Inside an object the scan knows where it starts.
unfoldable pub has_start : ℤ → Option ℕ → Bool
has_start (pos (suc n)) none = false
has_start _ _ = true

abbrev pub IsStarted : Scan → Type 0
IsStarted s = has_start s.depth s.start ≡ true

-- A pass that returns has set `done`, one that goes on has not.
unfoldable pub IsSettled : Pass → Type 0
IsSettled (goes_on s) = (s.done ≡ false) × IsStarted s
IsSettled (returns s) = s.done ≡ true

taken-IsSettled : (s : Scan) (l : Loaded) → s.done ≡ false → IsStarted s → IsSettled (taken s l)
unfolding IsSettled
taken-IsSettled s not_json d h = refl
taken-IsSettled s other d h = (d, h)
taken-IsSettled s (object block) d h = (d, h)

has_start-deeper :
    (depth : ℤ) (start : Option ℕ) (index : ℕ)
    → has_start depth start ≡ true
    → has_start (deeper depth) (if is_zero depth then some index else start) ≡ true
unfolding has_start deeper is_zero
has_start-deeper (pos zero) start index h = refl
has_start-deeper (pos (suc n)) (some s) index h = refl
has_start-deeper (pos (suc n)) none index h = cc
has_start-deeper (negsuc zero) start index h = refl
has_start-deeper (negsuc (suc n)) start index h = refl

has_start-shallower :
    (depth : ℤ) (start : Option ℕ)
    → has_start depth start ≡ true
    → has_start (shallower depth) start ≡ true
unfolding has_start shallower
has_start-shallower (pos zero) start h = refl
has_start-shallower (pos (suc zero)) start h = refl
has_start-shallower (pos (suc (suc n))) (some s) h = refl
has_start-shallower (pos (suc (suc n))) none h = cc
has_start-shallower (negsuc n) start h = refl

-- The object that a brace closes has a start.
start_of_closed :
    (depth : ℤ) (start : Option ℕ)
    → has_start depth start ≡ true
    → is_zero (shallower depth) ≡ true
    → (at : ℕ) × (start ≡ some at)
unfolding has_start shallower is_zero
start_of_closed (pos zero) start h z = cc
start_of_closed (pos (suc zero)) (some at) h z = (at, refl)
start_of_closed (pos (suc zero)) none h z = cc
start_of_closed (pos (suc (suc n))) start h z = cc
start_of_closed (negsuc n) start h z = cc

module _ (loads : Codes → Loaded) where
  close_brace-IsSettled :
      (buffer : Codes) (index : ℕ) (s : Scan)
      → s.done ≡ false
      → IsStarted s
      → IsSettled (close_brace loads buffer index s)
  unfolding close_brace IsSettled
  close_brace-IsSettled buffer index s d h = elim (Bool-cases (is_zero (shallower s.depth))) [
    | inl z ↦ rw z (taken-IsSettled _ (loads _) d (has_start-shallower s.depth s.start h))
    | inr z ↦ rw z (d, has_start-shallower s.depth s.start h)
  ]

  close_brace-append :
      (buffer more : Codes) (index : ℕ) (s : Scan)
      → index < length buffer
      → IsStarted s
      → close_brace loads (buffer ++ more) index s ≡ close_brace loads buffer index s
  unfolding close_brace
  close_brace-append buffer more index s b h = elim (Bool-cases (is_zero (shallower s.depth))) [
    | inl z ↦
        let (at, e) = start_of_closed s.depth s.start h z in
        rw (z, e, slice-append at (index + 1) buffer more (omega arith))
    | inr z ↦ rw z refl
  ]

  pass-IsSettled :
      (buffer : Codes) (index char : ℕ) (s : Scan)
      → s.done ≡ false
      → IsStarted s
      → IsSettled (pass loads buffer index char s)
  unfolding pass IsSettled in_text open_brace
  pass-IsSettled buffer index char s d h =
      ground
        (arith, close_brace-IsSettled buffer index s d h, has_start-deeper s.depth s.start index h)

  -- A pass reads the buffer up to its own character only.
  pass-append :
      (buffer more : Codes) (index char : ℕ) (s : Scan)
      → index < length buffer
      → IsStarted s
      → pass loads (buffer ++ more) index char s ≡ pass loads buffer index char s
  unfolding pass
  pass-append buffer more index char s b h = rw (close_brace-append buffer more index s b h)

  abbrev pub resume : Codes → Codes → Scan × ℕ → Scan × ℕ
  resume buffer more (s, index) =
      if s.done then (s, index) else loop loads buffer more index (goes_on s)

  pub resume_settled :
      (buffer more : Codes) (s : Scan) (index : ℕ)
      → s.done ≡ false
      → resume buffer more (s, index) ≡ loop loads buffer more index (goes_on s)
  resume_settled buffer more s index d = rw d refl

  resume_done :
      (buffer more : Codes) (s : Scan) (index : ℕ)
      → s.done ≡ true
      → resume buffer more (s, index) ≡ (s, index)
  resume_done buffer more s index d = rw d refl

  loop-returns :
      (buffer rest : Codes) (index : ℕ) (s : Scan)
      → loop loads buffer rest index (returns s) ≡ (s, index)
  unfolding loop
  loop-returns buffer [] index s = refl
  loop-returns buffer (char ∷ rest) index s = refl

  -- The loop on a text that continues is the loop on its first part, taken up again.
  pub loop-append :
      (buffer more rest : Codes) (index : ℕ) (p : Pass)
      → index + length rest ≤ length buffer
      → IsSettled p
      → loop loads (buffer ++ more) (rest ++ more) index p
        ≡ resume (buffer ++ more) more (loop loads buffer rest index p)
  unfolding loop IsSettled
  loop-append buffer more [] index (goes_on s) b h =
      sym (resume_settled (buffer ++ more) more s index h.0)
  loop-append buffer more [] index (returns s) b h =
      loop-returns (buffer ++ more) more index s ∙ sym (resume_done (buffer ++ more) more s index h)
  loop-append buffer more (char ∷ rest) index (returns s) b h =
      sym (resume_done (buffer ++ more) more s index h)
  loop-append buffer more (char ∷ rest) index (goes_on s) b h =
      ap (loop loads (buffer ++ more) (rest ++ more) (index + 1))
        (pass-append buffer more index char s (omega arith) h.1)
      ∙ loop-append buffer more rest (index + 1) (pass loads buffer index char s) (omega arith)
          (pass-IsSettled buffer index char s h.0 h.1)

  -- The loop leaves a settled state, at the end of the text unless it is done.
  pub loop-IsSettled :
      (buffer rest : Codes) (index : ℕ) (p : Pass)
      → IsSettled p
      → let (s, at) = loop loads buffer rest index p in
        (at ≤ index + length rest) × ((s.done ≡ false) → (at ≡ index + length rest) × IsStarted s)
  unfolding loop IsSettled
  loop-IsSettled buffer [] index (goes_on s) h = (omega arith, λ d. (omega arith, h.1))
  loop-IsSettled buffer [] index (returns s) h = (omega arith, λ d. cc)
  loop-IsSettled buffer (char ∷ rest) index (returns s) h = (omega arith, λ d. cc)
  loop-IsSettled buffer (char ∷ rest) index (goes_on s) h =
      let (b, f) =
        loop-IsSettled buffer rest (index + 1) (pass loads buffer index char s)
          (pass-IsSettled buffer index char s h.0 h.1) in
      (omega arith, λ d. let (e, g) = f d in (omega arith, g))
