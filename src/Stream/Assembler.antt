-- ===== src/Stream/Assembler.antt =====
-- The blocks that leave while the answer is still being written (`AnswerAssembler`,
-- src/hrmosaic/agent/answer_stream.py). `redact_text` is an argument.
use quantic_mosaic.Prelude.{
  ℕ, ◌+◌, ◌&&◌, Option, none, some, List, [], ◌∷◌, ◌++◌, String, length, drop, ltb, if◌then◌else◌,
}
use quantic_mosaic.Windows.{Codes}
use quantic_mosaic.Stream.{Block, Loaded, Scanner, fresh_scanner, push, advance}

-- `StreamedBlock`.
pub record StreamedBlock : Type 0 where
  pub index : ℕ
  pub type : String
  pub text : String
  pub citations : List String

-- `str(value or default)` of a member.
abbrev pub or_default : String → Option String → String
or_default default none = default
or_default default (some value) = value

pub record Assembler : Type 0 where
  pub scanner : Scanner
  pub pending : ℕ
  pub last_scan : ℕ
  pub emitted : ℕ
  pub scans : ℕ

-- `AnswerAssembler.__init__`, at a reading of the clock.
abbrev pub start : ℕ → Assembler
start now = record { scanner = fresh_scanner; pending = 0; last_scan = now; emitted = 0; scans = 0 }

module _ (redact_text : String → String) where
  abbrev pub shown : ℕ → Block → StreamedBlock
  shown index block = record {
    index = index;
    type = or_default "policy_fact" block.type;
    text = redact_text (or_default "" block.text);
    citations = block.citations;
  }

  -- The blocks of a list, numbered from `first` on.
  unfoldable pub publish : ℕ → List Block → List StreamedBlock
  publish first [] = []
  publish first (block ∷ blocks) = shown first block ∷ publish (first + 1) blocks

module _ (loads : Codes → Loaded) (redact_text : String → String) where
  -- `_drain`: what leaves, and the new state.
  unfoldable pub drain : Assembler → List StreamedBlock × Assembler
  unfolding advance publish
  drain a =
      let scanner = advance loads a.scanner in
      (
        publish redact_text a.emitted (drop a.emitted scanner.scan.blocks),
        record a { scans = a.scans + 1; scanner = scanner; emitted = length scanner.scan.blocks },
      )

module _ (loads : Codes → Loaded) (redact_text : String → String)
    (coalesce_chars coalesce_time : ℕ) where
  -- `feed`, at a reading of the clock.
  unfoldable pub feed : Codes → ℕ → Assembler → List StreamedBlock × Assembler
  unfolding drain
  feed text now a =
      let fed = record a { scanner = push text a.scanner; pending = a.pending + length text } in
      if ltb fed.pending coalesce_chars && ltb now (fed.last_scan + coalesce_time)
      then ([], fed)
      else drain loads redact_text (record fed { pending = 0; last_scan = now })

  -- The deltas of one call with the times they come at, and then `flush`: all that leaves.
  unfoldable pub stream : List (Codes × ℕ) → Assembler → List StreamedBlock
  unfolding feed drain
  stream [] a = (drain loads redact_text a).0
  stream ((text, now) ∷ deltas) a = let (out, fed) = feed text now a in out ++ stream deltas fed
