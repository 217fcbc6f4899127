-- ===== src/Stream/Publish.antt =====
-- `AnswerAssembler` (src/hrmosaic/agent/answer_stream.py) against its specification: the blocks of the
-- whole body, numbered from 0, each of them once.
use quantic_mosaic.Prelude.{
  ℕ, ◌+◌, ◌≡◌, refl, sym, ap, ◌∙◌, Option, none, some, List, [], ◌∷◌, ◌++◌, String, length, drop,
  if_both, arith, ltb, ◌&&◌, ◌==◌,
}
use mathlib.Core.List.{append_assoc, append-nil}
use quantic_mosaic.Windows.{Codes}
use quantic_mosaic.Stream.{
  Block, Loaded, not_json, other, object, Scan, Scanner, fresh_scanner, push, open_array, Pass,
  goes_on, returns, taken, in_text, open_brace, close_brace, pass, loop, opened, advance, is_zero,
  shallower,
}
use quantic_mosaic.Stream.Assembler.{
  Assembler, start, shown, publish, drain, feed, stream, StreamedBlock,
}
use quantic_mosaic.Stream.Resume.{
  IsValid, fresh-IsValid, push-IsValid, advance-IsValid, advance-push-advance,
}

-- The blocks of a scan come after those it had.
abbrev Extends : List Block → Scan → Type 0
Extends blocks s = (more : List Block) × (s.blocks ≡ blocks ++ more)

abbrev scan_of : Pass → Scan
scan_of (goes_on s) = s
scan_of (returns s) = s

same : (s : Scan) → Extends s.blocks s
same s = ([], sym (append-nil s.blocks))

trans :
    (blocks : List Block) (s t : Scan) → Extends blocks s → Extends s.blocks t → Extends blocks t
trans blocks s t (first, e) (second, f) =
    (first ++ second, f ∙ ap (◌++ second) e ∙ append_assoc blocks first second)

taken-Extends : (s : Scan) (l : Loaded) → Extends s.blocks (scan_of (taken s l))
taken-Extends s not_json = same s
taken-Extends s other = same s
taken-Extends s (object block) = (block ∷ [], refl)

in_text-Extends : (char : ℕ) (s : Scan) → Extends s.blocks (in_text char s)
unfolding in_text
in_text-Extends char s = if_both (Extends s.blocks) s.escaped _ _ (same s) (
    if_both (Extends s.blocks) (char == b'\\') _ _ (same s)
      (if_both (Extends s.blocks) (char == b'"') _ _ (same s) (same s)))

module _ (loads : Codes → Loaded) where
  pass-Extends :
      (buffer : Codes) (index char : ℕ) (s : Scan)
      → Extends s.blocks (scan_of (pass loads buffer index char s))
  unfolding pass open_brace close_brace
  pass-Extends buffer index char s =
      let P = λ (p : Pass). Extends s.blocks (scan_of p) in
      if_both P s.in_string _ _ (in_text-Extends char s) (
        if_both P (char == b'"') _ _ (same s) (
          if_both P (char == b'{') _ _ (same s) (
            if_both P (char == b'}') _ _
              (if_both P (is_zero (shallower s.depth)) _ _ (taken-Extends _ (loads _)) (same s))
              (if_both P ((char == b']') && is_zero s.depth) _ _ (same s) (same s)))))

  loop-Extends :
      (buffer rest : Codes) (index : ℕ) (p : Pass)
      → Extends (scan_of p).blocks (loop loads buffer rest index p).0
  unfolding loop
  loop-Extends buffer [] index (goes_on s) = same s
  loop-Extends buffer [] index (returns s) = same s
  loop-Extends buffer (char ∷ rest) index (returns s) = same s
  loop-Extends buffer (char ∷ rest) index (goes_on s) =
      let next = pass loads buffer index char s in
      trans s.blocks (scan_of next) (loop loads buffer rest (index + 1) next).0
        (pass-Extends buffer index char s) (loop-Extends buffer rest (index + 1) next)

  opened-Extends :
      (s : Scanner) (found : Option ℕ) → Extends s.scan.blocks (opened loads s found).scan
  opened-Extends s none = same s.scan
  opened-Extends s (some cursor) =
      loop-Extends s.buffer (drop cursor s.buffer) cursor (goes_on s.scan)

  -- `advance` appends blocks.
  advance-Extends : (s : Scanner) → Extends s.scan.blocks (advance loads s).scan
  unfolding advance
  advance-Extends s =
      let P = λ (t : Scanner). Extends s.scan.blocks t.scan in
      if_both P s.scan.done _ _ (same s.scan) (
        if_both P s.in_array _ _
          (loop-Extends s.buffer (drop s.cursor s.buffer) s.cursor (goes_on s.scan))
          (opened-Extends s (open_array s.buffer s.cursor)))

-- The text of a call's deltas.
abbrev pub whole : List (Codes × ℕ) → Codes
whole [] = []
whole ((text, now) ∷ deltas) = text ++ whole deltas

drop-length : (xs ys : List Block) → drop (length xs) (xs ++ ys) ≡ ys
drop-length [] ys = refl
drop-length (x ∷ xs) ys = drop-length xs ys

push-push :
    (first second : Codes) (s : Scanner) → push second (push first s) ≡ push (first ++ second) s
push-push first second s = ap (λ b. record s { buffer = b }) (append_assoc s.buffer first second)

push_none : (s : Scanner) → push [] s ≡ s
push_none s = ap (λ b. record s { buffer = b }) (append-nil s.buffer)

module _ (redact_text : String → String) where
  publish-append :
      (first : ℕ) (xs ys : List Block)
      → publish redact_text first (xs ++ ys)
        ≡ publish redact_text first xs ++ publish redact_text (first + length xs) ys
  unfolding publish
  publish-append first [] ys = ap (λ n. publish redact_text n ys) (omega arith)
  publish-append first (x ∷ xs) ys = ap (shown redact_text first x ∷◌) (
      publish-append (first + 1) xs ys
      ∙ ap (λ n. publish redact_text (first + 1) xs ++ publish redact_text n ys) (omega arith))

-- What has left are the blocks of the scanner.
record IsEmitting (a : Assembler) : Type 0 where
  valid : IsValid a.scanner
  counted : a.emitted ≡ length a.scanner.scan.blocks

module _ (loads : Codes → Loaded) (redact_text : String → String) where
  -- What a call that leaves `out` and the state `b` has done on the way from `a`.
  record Reaches (text : Codes) (a : Assembler) (step : List StreamedBlock × Assembler)
      : Type 0 where
    emitting : IsEmitting step.1
    all_out :
        publish redact_text 0 a.scanner.scan.blocks ++ step.0
        ≡ publish redact_text 0 step.1.scanner.scan.blocks
    caught_up :
        (more : Codes)
        → advance loads (push more step.1.scanner) ≡ advance loads (push (text ++ more) a.scanner)

  drained :
      (old new : List Block) (emitted : ℕ)
      → emitted ≡ length old
      → (more : List Block) × (new ≡ old ++ more)
      → publish redact_text 0 old ++ publish redact_text emitted (drop emitted new)
        ≡ publish redact_text 0 new
  drained old new emitted c (more, e) =
      rw (e, c, drop-length old more)
        (sym (
          publish-append redact_text 0 old more
          ∙ ap (λ n. publish redact_text 0 old ++ publish redact_text n more) (omega arith)))

  drain-Reaches : (a : Assembler) → IsEmitting a → Reaches [] a (drain loads redact_text a)
  unfolding drain
  drain-Reaches a h = record {
    emitting = record { valid = advance-IsValid loads a.scanner h.valid; counted = refl };
    all_out =
        drained a.scanner.scan.blocks (advance loads a.scanner).scan.blocks a.emitted h.counted
          (advance-Extends loads a.scanner);
    caught_up = λ more. advance-push-advance loads more a.scanner h.valid;
  }

  -- A drain after a text has been pushed.
  after_push :
      (text : Codes) (a b : Assembler) (step : List StreamedBlock × Assembler)
      → b.scanner ≡ push text a.scanner
      → Reaches [] b step
      → Reaches text a step
  after_push text a b step e r = record {
    emitting = r.emitting;
    all_out = ap (λ s. publish redact_text 0 s.scan.blocks ++ step.0) (sym e) ∙ r.all_out;
    caught_up = λ more.
        r.caught_up more
        ∙ ap (λ s. advance loads (push more s)) e
        ∙ ap (advance loads) (push-push text more a.scanner);
  }

module _ (loads : Codes → Loaded) (redact_text : String → String)
    (coalesce_chars coalesce_time : ℕ) where
  feed-Reaches :
      (text : Codes) (now : ℕ) (a : Assembler)
      → IsEmitting a
      → Reaches loads redact_text text a
          (feed loads redact_text coalesce_chars coalesce_time text now a)
  unfolding feed
  feed-Reaches text now a h =
      let fed = record a { scanner = push text a.scanner; pending = a.pending + length text } in
      let later = record fed { pending = 0; last_scan = now } in
      let valid = push-IsValid text a.scanner h.valid in
      if_both (Reaches loads redact_text text a)
        (ltb fed.pending coalesce_chars && ltb now (fed.last_scan + coalesce_time)) _ _
        (record {
          emitting = record { valid = valid; counted = h.counted };
          all_out = append-nil (publish redact_text 0 a.scanner.scan.blocks);
          caught_up = λ more. ap (advance loads) (push-push text more a.scanner);
        })
        (after_push loads redact_text text a later _ refl
          (drain-Reaches loads redact_text later (record { valid = valid; counted = h.counted })))

  stream_from :
      (deltas : List (Codes × ℕ)) (a : Assembler)
      → IsEmitting a
      → publish redact_text 0 a.scanner.scan.blocks
          ++ stream loads redact_text coalesce_chars coalesce_time deltas a
        ≡ publish redact_text 0 (advance loads (push (whole deltas) a.scanner)).scan.blocks
  unfolding stream drain
  stream_from [] a h =
      (drain-Reaches loads redact_text a h).all_out
      ∙ ap (λ s. publish redact_text 0 (advance loads s).scan.blocks) (sym (push_none a.scanner))
  stream_from ((text, now) ∷ deltas) a h =
      let step = feed loads redact_text coalesce_chars coalesce_time text now a in
      let r = feed-Reaches text now a h in
      sym (
        append_assoc (publish redact_text 0 a.scanner.scan.blocks) step.0
          (stream loads redact_text coalesce_chars coalesce_time deltas step.1))
      ∙ ap (◌++ stream loads redact_text coalesce_chars coalesce_time deltas step.1) r.all_out
      ∙ stream_from deltas step.1 r.emitting
      ∙ ap (λ s. publish redact_text 0 s.scan.blocks) (r.caught_up (whole deltas))

  -- However the body of an answer is cut into deltas, whenever they come and whatever the two
  -- coalescing thresholds are, what `feed` and the last `flush` let out together is exactly the list
  -- of the blocks that one scan of the whole body finds, redacted and numbered from 0 in order.
  pub stream-whole :
      (deltas : List (Codes × ℕ)) (now : ℕ)
      → stream loads redact_text coalesce_chars coalesce_time deltas (start now)
        ≡ publish redact_text 0 (advance loads (push (whole deltas) fresh_scanner)).scan.blocks
  unfolding publish
  stream-whole deltas now =
      stream_from deltas (start now) (record { valid = fresh-IsValid; counted = refl })
