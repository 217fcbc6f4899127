-- ===== src/Guards/Citations.antt =====
-- G2, citation resolvability (src/hrmosaic/agent/guardrails/g2.py). The chunks are those of the index,
-- read by an argument, `get_chunk`.
pub mod Cascade
pub mod Cached
pub mod Resolved
pub mod Reference
pub mod Real
use Prim.Native.Char.{code}
use quantic_mosaic.Prelude.{
  first, size, ℕ, zero, suc, ◌+◌, Bool, true, false, not, ◌&&◌, ◌||◌, Option, none, some, List, [],
  ◌∷◌, ◌++◌, String, ◌<>◌, str_eq, length, keep, any, map, member, lookup, insert, contains, ltb,
  ◌==◌, if◌then◌else◌,
}
use quantic_mosaic.Prelude.Int.{ℤ, pos}
use quantic_mosaic.Rules.Print.{is_space, strip}
use quantic_mosaic.Guards.{Block, Payload}

-- A row of the index.
pub record Chunk : Type 0 where
  pub chunk_id : String
  pub doc_id : String
  pub doc_title : String
  pub heading_path : String
  pub section : String
  pub snippet : String
  pub text : String

-- What the evidence claimed about a chunk.
pub record Displayed : Type 0 where
  pub doc_id : String
  pub doc_title : String
  pub heading_path : String
  pub section : String
  pub snippet : String
  pub dense_score : ℤ
  pub quarantined : Bool

pub record Citation : Type 0 where
  pub chunk_id : String
  pub doc_id : String
  pub doc_title : String
  pub heading_path : String
  pub section : String
  pub snippet : String
  pub score : ℤ
  pub quarantined : Bool
  pub source_url : String

pub record Resolution : Type 0 where
  pub chunk_id : String
  pub ok : Bool
  pub reason : Option String
  pub citation : Option Citation

pub record Recovery : Type 0 where
  pub cited : String
  pub chunk_id : String

abbrev pub recovery_prefix : ℕ
recovery_prefix = 16

abbrev pub unknown_id : String
unknown_id = "unknown chunk_id"

abbrev sole : List String → Option String
sole [] = none
sole (x ∷ []) = some x
sole (x ∷ y ∷ rest) = none

abbrev pub is_slip : String → String → Bool
unfolding first
is_slip chunk_id candidate =
    not (str_eq candidate chunk_id)
    && str_eq (first recovery_prefix candidate) (first recovery_prefix chunk_id)

unfoldable pub recover : String → List String → Option String
unfolding size is_slip
recover chunk_id candidates =
    let matched = sole (keep (is_slip chunk_id) candidates) in
    if ltb (size chunk_id) recovery_prefix then none else matched

abbrev pub rejected : String → String → Resolution
rejected chunk_id reason = record {
  chunk_id = chunk_id;
  ok = false;
  reason = some reason;
  citation = none;
}

abbrev pub score_of : Option Displayed → ℤ
score_of none = pos 0
score_of (some shown) = shown.dense_score

abbrev pub cite : Chunk → ℤ → Citation
cite chunk score = record {
  chunk_id = chunk.chunk_id;
  doc_id = chunk.doc_id;
  doc_title = chunk.doc_title;
  heading_path = chunk.heading_path;
  section = chunk.section;
  snippet = chunk.snippet;
  score = score;
  quarantined = false;
  source_url = "/policy/" <> chunk.doc_id <> "#" <> chunk.chunk_id;
}

abbrev pub stands : String → Chunk → Option Displayed → Option String → Resolution
stands chunk_id chunk displayed none = record {
  chunk_id = chunk_id;
  ok = true;
  reason = none;
  citation = some (cite chunk (score_of displayed));
}
stands chunk_id chunk displayed (some reason) = rejected chunk_id reason

abbrev pub is_quarantined : Option Displayed → Bool
is_quarantined none = false
is_quarantined (some shown) = shown.quarantined

-- `normalise`: each run of white space as one space, and none at the ends.
squeeze_after : Bool → String → String
unfolding is_space
squeeze_after in_run String.[] = ""
squeeze_after in_run (String.◌∷◌ c s) =
    let rest = squeeze_after (is_space (code c)) s in
    if is_space (code c) then if in_run then rest else " " <> rest else String.◌∷◌ c rest

unfoldable pub normalise : String → String
unfolding squeeze_after strip
normalise s = strip (squeeze_after false s)

-- The first label under which what was displayed differs from the index.
unfoldable pub drift : Displayed → Chunk → Option String
unfolding normalise contains
drift shown real =
    if not (str_eq shown.doc_id real.doc_id)
    then some "displayed doc_id mismatches the index"
    else if not (str_eq shown.doc_title real.doc_title)
    then some "displayed doc_title mismatches the index"
    else if not (str_eq shown.heading_path real.heading_path)
    then some "displayed heading_path mismatches the index"
    else if not (str_eq shown.section real.section)
    then some "displayed section mismatches the index"
    else if not (contains (normalise shown.snippet) (normalise real.text))
    then some "displayed snippet is not in the chunk text"
    else none

abbrev pub drift_of : Option Displayed → Chunk → Option String
drift_of none real = none
drift_of (some shown) real = drift shown real

unfoldable pub resolve_chunk : String → Option Displayed → Bool → Option Chunk → Resolution
unfolding drift
resolve_chunk chunk_id displayed quarantined none = rejected chunk_id unknown_id
resolve_chunk chunk_id displayed quarantined (some chunk) =
    if quarantined || is_quarantined displayed
    then rejected chunk_id "quarantined chunk (G4)"
    else stands chunk_id chunk displayed (drift_of displayed chunk)
