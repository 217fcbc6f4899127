-- ===== src/Stream/Resume.antt =====
-- `_BlockScanner.advance` (src/hrmosaic/agent/answer_stream.py) on a body that arrives in parts: a
-- scan taken up again where it stopped ends as one scan of the whole.
use quantic_mosaic.Prelude.{
  ℕ, ◌≤◌, ◌≡◌, refl, sym, ap, ◌∙◌, inl, inr, true, false, Option, none, some, [], ◌++◌, length,
  drop, length-append, Bool-cases, arith, if◌then◌else◌,
}
use mathlib.Core.Path.{subst}
use quantic_mosaic.Windows.{Codes}
use quantic_mosaic.Stream.{
  Loaded, Scan, Scanner, fresh_scanner, push, open_array, goes_on, loop, settle, read_on, opened,
  advance,
}
use quantic_mosaic.Stream.Loop.{
  has_start, IsStarted, IsSettled, resume, resume_settled, loop-append, loop-IsSettled,
}
use quantic_mosaic.Stream.Find.{drop-append, length-drop, drop_all, open_array-append}

-- The cursor stays in the buffer, and a scan that is not done starts its objects where it says.
pub record IsValid (s : Scanner) : Type 0 where
  pub cursor_in : s.cursor ≤ length s.buffer
  pub is_started : s.scan.done ≡ false → IsStarted s.scan

pub fresh-IsValid : IsValid fresh_scanner
unfolding has_start
fresh-IsValid = record { cursor_in = omega arith; is_started = λ d. refl }

pub push-IsValid : (text : Codes) (s : Scanner) → IsValid s → IsValid (push text s)
push-IsValid text s v = record {
  cursor_in = omega (arith, length-append s.buffer text, v.cursor_in);
  is_started = v.is_started;
}

module _ (loads : Codes → Loaded) where
  read_on-IsValid : (s : Scanner) → s.scan.done ≡ false → IsValid s → IsValid (read_on loads s)
  unfolding IsSettled
  read_on-IsValid s d v =
      let (b, f) =
        loop-IsSettled loads s.buffer (drop s.cursor s.buffer) s.cursor (goes_on s.scan)
          (d, v.is_started d) in
      record {
        cursor_in = omega (arith, length-drop s.cursor s.buffer v.cursor_in);
        is_started = λ e. (f e).1;
      }

  abbrev on_more : Scanner → Scanner
  on_more s = if s.scan.done then s else read_on loads s

  on_more_active : (s : Scanner) → s.scan.done ≡ false → on_more s ≡ read_on loads s
  on_more_active s d = ap (λ b. if b then s else read_on loads s) d

  drop_end : (j : ℕ) (buffer more : Codes) → j ≡ length buffer → drop j (buffer ++ more) ≡ more
  drop_end j buffer more e =
      drop-append j buffer more (omega arith)
      ∙ ap (◌++ more) (ap (λ k. drop k buffer) e ∙ drop_all buffer)

  settle-resume :
      (more : Codes) (s : Scanner) (read : Scan) (j : ℕ)
      → (read.done ≡ false → j ≡ length s.buffer)
      → settle (push more s) (resume loads (s.buffer ++ more) more (read, j))
        ≡ on_more (settle (push more s) (read, j))
  settle-resume more s read j h = elim (Bool-cases read.done) [
    | inl d ↦ rw d refl
    | inr d ↦
        ap (settle (push more s)) (resume_settled loads (s.buffer ++ more) more read j d)
        ∙ ap (λ rest. settle (push more s) (loop loads (s.buffer ++ more) rest j (goes_on read)))
            (sym (drop_end j s.buffer more (h d)))
        ∙ sym (on_more_active (settle (push more s) (read, j)) d)
  ]

  -- Reading on, then more text, then reading on: one reading of both.
  read_on-append :
      (more : Codes) (s : Scanner)
      → s.scan.done ≡ false
      → IsValid s
      → read_on loads (push more s) ≡ on_more (push more (read_on loads s))
  unfolding IsSettled
  read_on-append more s d v =
      let rest = drop s.cursor s.buffer in
      let (b, f) =
        loop-IsSettled loads s.buffer rest s.cursor (goes_on s.scan) (d, v.is_started d) in
      let l = length-drop s.cursor s.buffer v.cursor_in in
      ap (λ r. settle (push more s) (loop loads (s.buffer ++ more) r s.cursor (goes_on s.scan)))
        (drop-append s.cursor s.buffer more v.cursor_in)
      ∙ ap (settle (push more s)) (
          loop-append loads s.buffer more rest s.cursor (goes_on s.scan) (omega arith)
            (d, v.is_started d))
      ∙ settle-resume more s (loop loads s.buffer rest s.cursor (goes_on s.scan)).0
          (loop loads s.buffer rest s.cursor (goes_on s.scan)).1 (λ e. omega (arith, (f e).0))

  -- `advance` after more has arrived.
  push-advance_done :
      (more : Codes) (s : Scanner)
      → s.scan.done ≡ true
      → advance loads (push more (advance loads s)) ≡ advance loads (push more s)
  unfolding advance
  push-advance_done more s d = rw d refl

  advance_done : (s : Scanner) → s.scan.done ≡ true → advance loads s ≡ s
  unfolding advance
  advance_done s d = rw d refl

  advance_active :
      (s : Scanner) → s.scan.done ≡ false → s.in_array ≡ true → advance loads s ≡ read_on loads s
  unfolding advance
  advance_active s d a = rw (d, a) refl

  advance_closed :
      (s : Scanner)
      → s.scan.done ≡ false
      → s.in_array ≡ false
      → advance loads s ≡ opened loads s (open_array s.buffer s.cursor)
  unfolding advance
  advance_closed s d a = rw (d, a) refl

  -- An array that is open stays open.
  advance-on_more : (s : Scanner) → s.in_array ≡ true → advance loads s ≡ on_more s
  unfolding advance
  advance-on_more s a = rw a refl

  push-advance_active :
      (more : Codes) (s : Scanner)
      → s.scan.done ≡ false
      → s.in_array ≡ true
      → IsValid s
      → advance loads (push more (advance loads s)) ≡ advance loads (push more s)
  push-advance_active more s d a v =
      ap (λ t. advance loads (push more t)) (advance_active s d a)
      ∙ advance-on_more (push more (read_on loads s)) a
      ∙ sym (read_on-append more s d v)
      ∙ sym (advance_active (push more s) d a)

  push-advance_closed :
      (more : Codes) (s : Scanner)
      → s.scan.done ≡ false
      → s.in_array ≡ false
      → IsValid s
      → (found : Option ℕ) → open_array s.buffer s.cursor ≡ found
      → advance loads (push more (opened loads s found)) ≡ advance loads (push more s)
  push-advance_closed more s d a v none e = refl
  push-advance_closed more s d a v (some next) e =
      let (e', b) = open_array-append s.buffer more s.cursor v.cursor_in e in
      let t = record s { in_array = true; cursor = next } in
      advance-on_more (push more (read_on loads t)) refl
      ∙ sym (read_on-append more t d (record { cursor_in = b; is_started = v.is_started }))
      ∙ ap (opened loads (push more s)) (sym e')
      ∙ sym (advance_closed (push more s) d a)

  -- Where the scan is taken up does not matter: to look at what has arrived and again when there is
  -- more leaves the same state as to look once at all of it.
  pub advance-push-advance :
      (more : Codes) (s : Scanner)
      → IsValid s
      → advance loads (push more (advance loads s)) ≡ advance loads (push more s)
  advance-push-advance more s v = elim (Bool-cases s.scan.done) [
    | inl d ↦ push-advance_done more s d
    | inr d ↦ elim (Bool-cases s.in_array) [
      | inl a ↦ push-advance_active more s d a v
      | inr a ↦
          ap (λ t. advance loads (push more t)) (advance_closed s d a)
          ∙ push-advance_closed more s d a v (open_array s.buffer s.cursor) refl
    ]
  ]

  opened-IsValid :
      (s : Scanner)
      → s.scan.done ≡ false
      → IsValid s
      → (found : Option ℕ) → open_array s.buffer s.cursor ≡ found
      → IsValid (opened loads s found)
  opened-IsValid s d v none e = v
  opened-IsValid s d v (some next) e =
      let b = (open_array-append s.buffer [] s.cursor v.cursor_in e).1 in
      read_on-IsValid (record s { in_array = true; cursor = next }) d
        (record { cursor_in = b; is_started = v.is_started })

  pub advance-IsValid : (s : Scanner) → IsValid s → IsValid (advance loads s)
  unfolding advance
  advance-IsValid s v = elim (Bool-cases s.scan.done) [
    | inl d ↦ subst IsValid (sym (advance_done s d)) v
    | inr d ↦ elim (Bool-cases s.in_array) [
      | inl a ↦ subst IsValid (sym (advance_active s d a)) (read_on-IsValid s d v)
      | inr a ↦
          subst IsValid (sym (advance_closed s d a))
            (opened-IsValid s d v (open_array s.buffer s.cursor) refl)
    ]
  ]
