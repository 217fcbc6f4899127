-- ===== src/Guards/Citations/Cascade.antt =====
-- The cascade of G2 over the blocks of an answer (`apply`, src/hrmosaic/agent/guardrails/g2.py), with the
-- resolutions it remembers.
use quantic_mosaic.Prelude.{
  ℕ, ◌+◌, Bool, true, false, not, ◌&&◌, ◌||◌, Option, none, some, List, [], ◌∷◌, ◌++◌, String, ◌<>◌,
  str_eq, length, any, ltb, map, member, lookup, insert, ◌==◌, if◌then◌else◌,
}
use quantic_mosaic.Rules.Print.{show}
use quantic_mosaic.Guards.{Block, Payload}
use quantic_mosaic.Guards.Citations.{
  Chunk, Displayed, Citation, Resolution, Recovery, unknown_id, recover, resolve_chunk,
}

abbrev pub reason_or_empty : Option String → String
reason_or_empty none = ""
reason_or_empty (some reason) = reason

-- One chunk id as a key, entered where it is not there yet.
abbrev pub add_new : String → List String → List String
add_new x xs = if member x xs then xs else xs ++ x ∷ []

abbrev pub same_rejection : Resolution → Resolution → Bool
same_rejection a b =
    str_eq a.chunk_id b.chunk_id && str_eq (reason_or_empty a.reason) (reason_or_empty b.reason)

pub record Cascade : Type 0 where
  pub resolutions : List (String × Resolution)
  pub recovered : List Recovery
  pub stripped : List Resolution

abbrev pub is_open : Resolution → Bool
is_open r = not (r.ok || not (str_eq (reason_or_empty r.reason) unknown_id))

abbrev pub add_recovery : Recovery → List Recovery → List Recovery
add_recovery r rs =
    if any (λ s. str_eq s.cited r.cited && str_eq s.chunk_id r.chunk_id) rs
    then rs
    else rs ++ r ∷ []

abbrev pub add_stripped : Resolution → List Resolution → List Resolution
add_stripped r rs = if any (same_rejection r) rs then rs else rs ++ r ∷ []

abbrev pub note : (String × Resolution) × Cascade → List String → List String × Cascade
note ((chunk_id, r), s) surviving =
    if r.ok
    then (add_new chunk_id surviving, s)
    else (surviving, record s { stripped = add_stripped r s.stripped })

abbrev pub is_empty : List String → Bool
is_empty [] = true
is_empty (x ∷ xs) = false

-- A claim that had citations and lost every one of them.
abbrev pub is_unsupported : Block → List String → Bool
is_unsupported block surviving =
    str_eq block.type "policy_fact" && (is_empty surviving && not (is_empty block.citations))

pub record Kept : Type 0 where
  pub blocks : List Block
  pub dropped : ℕ
  pub cascade : Cascade

abbrev pub all_ids : List Block → List String
all_ids [] = []
all_ids (block ∷ more) = block.citations ++ all_ids more

abbrev pub distinct : List String → List String → List String
distinct seen [] = []
distinct seen (x ∷ xs) =
    let rest = distinct (if member x seen then seen else x ∷ seen) xs in
    if member x seen then rest else x ∷ rest

abbrev pub with_citation : Option Citation → List Citation → List Citation
with_citation none cs = cs
with_citation (some c) cs = c ∷ cs

abbrev pub joined : Option Resolution → Option (List Citation) → Option (List Citation)
joined none rest = none
joined (some r) none = none
joined (some r) (some cs) = some (with_citation r.citation cs)

-- `resolutions[chunk_id].citation` of each id; `none` where the source raises.
unfoldable pub citations_of : List (String × Resolution) → List String → Option (List Citation)
citations_of known [] = some []
citations_of known (chunk_id ∷ more) = joined (lookup chunk_id known) (citations_of known more)

pub record Outcome : Type 0 where
  pub blocks : List Block
  pub citations : List Citation
  pub stripped : List Resolution
  pub dropped_blocks : ℕ
  pub refused : Bool
  pub recovered : List Recovery

abbrev pub has_any : List Block → Bool
has_any [] = false
has_any (b ∷ bs) = true

abbrev pub outcome : List Block → Kept → Option (List Citation) → Option Outcome
outcome blocks kept none = none
outcome blocks kept (some citations) = some (record {
  blocks = kept.blocks;
  citations = citations;
  stripped = kept.cascade.stripped;
  dropped_blocks = kept.dropped;
  refused = has_any blocks && not (has_any kept.blocks);
  recovered = kept.cascade.recovered;
})

abbrev pub repaired : Outcome → Bool
repaired o = ltb 0 (length o.stripped) || (ltb 0 o.dropped_blocks || ltb 0 (length o.recovered))

abbrev counted : ℕ → String → String
counted n noun = noun <> (if n == 1 then "" else "s")

-- An id read as a slip of a candidate, if the candidate resolves.
abbrev pub slipped :
    Bool → String → Resolution → String → Resolution → Cascade → (String × Resolution) × Cascade
slipped false chunk_id r candidate alternative s = ((chunk_id, r), s)
slipped true chunk_id r candidate alternative s = (
  (candidate, alternative),
  record s {
    recovered = add_recovery (record { cited = chunk_id; chunk_id = candidate }) s.recovered;
  },
)

module _ (get_chunk : String → Option Chunk) (evidence : List (String × Displayed))
    (quarantined : List String) where
  unfoldable pub resolve : String → Option Displayed → Bool → Resolution
  unfolding resolve_chunk
  resolve chunk_id displayed is_bad = resolve_chunk chunk_id displayed is_bad (get_chunk chunk_id)

  unfoldable pub citable_in : List (String × Displayed) → List String
  citable_in [] = []
  citable_in ((candidate, shown) ∷ more) =
      let rest = citable_in more in
      if not (member candidate quarantined) && not shown.quarantined then candidate ∷ rest else rest

  abbrev pub citable : List String
  citable = citable_in evidence

  -- `resolutions[chunk_id]`, entered first where it is not there.
  unfoldable pub recall :
      String
      → Bool
      → List (String × Resolution)
      → Option Resolution
      → Resolution × List (String × Resolution)
  unfolding resolve
  recall chunk_id is_bad known none =
      let r = resolve chunk_id (lookup chunk_id evidence) is_bad in (r, insert chunk_id r known)
  recall chunk_id is_bad known (some r) = (r, known)

  abbrev pub memo :
      String → Bool → List (String × Resolution) → Resolution × List (String × Resolution)
  memo chunk_id is_bad known = recall chunk_id is_bad known (lookup chunk_id known)

  unfoldable pub try_slip :
      String → Resolution → Option String → Cascade → (String × Resolution) × Cascade
  unfolding recall
  try_slip chunk_id r none s = ((chunk_id, r), s)
  try_slip chunk_id r (some candidate) s =
      let (alternative, known) = memo candidate false s.resolutions in
      slipped alternative.ok chunk_id r candidate alternative (record s { resolutions = known })

  -- `resolution_for`.
  unfoldable pub resolution_for : String → Cascade → (String × Resolution) × Cascade
  unfolding try_slip recover recall citable_in
  resolution_for chunk_id s =
      let (r, known) = memo chunk_id (member chunk_id quarantined) s.resolutions in
      let met = record s { resolutions = known } in
      if is_open r then try_slip chunk_id r (recover chunk_id citable) met else ((chunk_id, r), met)

  -- The citations of one block: those that survive.
  unfoldable pub cite_all : List String → List String → Cascade → List String × Cascade
  unfolding resolution_for
  cite_all [] surviving s = (surviving, s)
  cite_all (cited ∷ more) surviving s =
      let (next, t) = note (resolution_for cited s) surviving in cite_all more next t

  -- The loop over the blocks.
  unfoldable pub keep_blocks : List Block → Cascade → Kept
  unfolding cite_all
  keep_blocks [] s = record { blocks = []; dropped = 0; cascade = s }
  keep_blocks (block ∷ more) s =
      let (surviving, t) = cite_all block.citations [] s in
      let rest = keep_blocks more t in
      if is_unsupported block surviving
      then record rest { dropped = rest.dropped + 1 }
      else record rest { blocks = record block { citations = surviving } ∷ rest.blocks }

  -- `apply`.
  unfoldable pub apply : List Block → Option Outcome
  unfolding keep_blocks citations_of
  apply blocks =
      let kept = keep_blocks blocks (record { resolutions = []; recovered = []; stripped = [] }) in
      outcome blocks kept
        (citations_of kept.cascade.resolutions (distinct [] (all_ids kept.blocks)))

  -- `check`: the outcome, and the span it writes.
  unfoldable pub check : List Block → List String → Option (Outcome × Payload)
  unfolding apply show
  check blocks evidence_span_ids = checked (apply blocks)
    where
      checked : Option Outcome → Option (Outcome × Payload)
      checked none = none
      checked (some o) =
          let total = length (all_ids blocks) in
          let sources = length (distinct [] (map (λ c. c.doc_id) o.citations)) in
          some (
            o,
            record {
              rule_id = "G2";
              verdict = if repaired o then "repair" else "allow";
              reason =
                  show (length (all_ids o.blocks))
                  <> " of "
                  <> show total
                  <> " citation "
                  <> counted total "link"
                  <> " resolved ("
                  <> show sources
                  <> " "
                  <> counted sources "source"
                  <> ")";
              evidence_span_ids = evidence_span_ids;
              matched_pattern = none;
            },
          )
