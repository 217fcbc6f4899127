-- ===== src/Rules/Engine.antt =====
-- One requirement and the verdict: `resolve_evidence`, `_entry`, `_settle`,
-- `_evaluate_requirement`, `_settle_manual`, `_verdict` and `derive_parameters`
-- (src/hrmosaic/mcpserver/rules.py).
pub mod Requirements
pub mod Verdicts
pub mod Derived
use quantic_mosaic.Prelude.{
  ℕ, ◌+◌, ◌≡◌, Bool, true, false, not, ◌||◌, ◌&&◌, Option, none, some, List, [], ◌∷◌, ◌++◌, String,
  str_eq, map, lookup, insert, member, any, keep, strip_prefix?, ltb, if◌then◌else◌,
}
use quantic_mosaic.Prelude.Int.{ℤ, pos, ◌+ℤ◌}
use quantic_mosaic.Calendar.Civil.{Date}
use quantic_mosaic.Calendar.Business.{business_days_inclusive}
use quantic_mosaic.Rules.Value.{Value, Dict, int, parse_date?, days_from}
use quantic_mosaic.Rules.Print.{prefix, strip}
use quantic_mosaic.Rules.Data.{
  Context, Check, Requirement, ChunkRow, Evidence, Entry, Decision, Status, Reason, Source, Verdict,
  Result, ok, err, ◌>>=◌, RuleError, no_check, unknown_operator, unknown_subject, end_before_start,
}
use quantic_mosaic.Rules.Computed.{
  subject, fact, resolve_fact_key, computed_subjects, balance_subjects, snapshot_subjects,
}
use quantic_mosaic.Rules.Operators.{operators, compare_value, compare_to_of, apply}

-- `min(matches, key=char_start)`: the first of the least.
first_of_least : ChunkRow → List ChunkRow → ChunkRow
first_of_least best [] = best
first_of_least best (r ∷ rs) =
    first_of_least (if ltb r.char_start best.char_start then r else best) rs

evidence_of : List ChunkRow → Option Evidence
unfolding first_of_least prefix strip
evidence_of [] = none
evidence_of (r ∷ rs) =
    let chunk = first_of_least r rs in
    some (record {
      chunk_id = chunk.chunk_id;
      doc_id = chunk.doc_id;
      heading_path = chunk.heading_path;
      snippet = strip (prefix 300 chunk.words);
    })

unfoldable pub resolve_evidence : (String → List ChunkRow) → String → String → Option Evidence
unfolding evidence_of
resolve_evidence list_chunks doc_id heading_path =
    evidence_of (keep (λ chunk. str_eq chunk.heading_path heading_path) (list_chunks doc_id))

unfoldable pub new_entry : Requirement → String → Option Evidence → Entry
new_entry r fact_key evidence = record {
  id = r.id;
  words = r.words;
  label = r.label;
  met_flag = false;
  status = Status.not_stated;
  reason = Reason.not_evaluated;
  blocking = false;
  fact_key = fact_key;
  evidence = evidence;
}

-- `status == "met"`.
abbrev pub is_met_status : Status → Bool
is_met_status Status.met = true
is_met_status Status.unmet = false
is_met_status Status.not_stated = false

-- The one place that writes `status` and `met`.
unfoldable pub settle : Entry → Status → Reason → Entry
settle e status reason = record e {
  met_flag = is_met_status status;
  status = status;
  reason = reason;
}

unfoldable pub decision : Entry → Status → Reason → Bool → Bool → Bool → Decision
unfolding settle
decision e status reason evaluable blocking data_backed = record {
  entry = settle e status reason;
  is_met = is_met_status status;
  evaluable = evaluable;
  blocking = blocking;
  data_backed = data_backed;
}

unfoldable pub source_of : Check → Source
unfolding strip_prefix?
source_of check = elim (strip_prefix? "parameters." (compare_to_of check)) [
  | none ↦ Source.policy
  | some _ ↦ Source.request
]

-- The comparison, once both values are there.
compare_known : Context → Check → Entry → Bool → Value → Value → Result Decision
unfolding decision source_of apply
compare_known c check e blocking value expected = do
  holds ← apply c.world check.operator value expected
  ok (
      decision e (if holds then Status.met else Status.unmet)
        (Reason.compared check.subject value (source_of check) expected check.operator) true
        blocking true)

compare_expected : Context → Check → Entry → Bool → Value → Option Value → Result Decision
unfolding compare_known
compare_expected c check e blocking value none = ok (
    decision e Status.not_stated (Reason.comparison_not_supplied check.compare_to) false blocking
      true)
compare_expected c check e blocking value (some expected) =
    compare_known c check e blocking value expected

compare_subject : Context → Check → String → Entry → Bool → Option Value → Result Decision
unfolding compare_expected
compare_subject c check fact_key e blocking none =
    ok (decision e Status.not_stated (Reason.not_supplied check.subject) false blocking true)
compare_subject c check fact_key e blocking (some value) = do
  expected ← compare_value check fact_key c
  compare_expected c check e blocking value expected

-- A row that is decided by comparing.
evaluate_comparison : Context → Check → String → Entry → Bool → Result Decision
unfolding compare_subject
evaluate_comparison c check fact_key e blocking =
    if member check.subject snapshot_subjects && ltb c.submitted_on c.as_of
    then ok (
        decision e Status.not_stated (Reason.snapshot_is_later c.as_of c.submitted_on) false
          blocking true)
    else (do value ← subject c check.subject; compare_subject c check fact_key e blocking value)

standing : Context → String → Entry → Bool → Result Decision
standing c fact_key e blocking = do
  value ← fact c fact_key
  ok (decision e Status.met (Reason.standing_rule value) true blocking true)

known_subject : String → Bool
unfolding strip_prefix?
known_subject name = elim (strip_prefix? "parameters." name) [
  | some _ ↦ true
  | none ↦ elim (strip_prefix? "employee." name) [
    | some _ ↦ true
    | none ↦ member name (computed_subjects ++ balance_subjects)
  ]
]

-- By the operator, known to be one of `operators`.
unfoldable pub evaluate_known : Context → Check → String → Entry → Bool → Result Decision
unfolding evaluate_comparison standing decision
evaluate_known c check fact_key e blocking =
    if str_eq check.operator "informational"
    then standing c fact_key e blocking
    else if str_eq check.operator "manual"
    then ok (decision e Status.not_stated Reason.confirm_first true false false)
    else evaluate_comparison c check fact_key e blocking

evaluate_check : Context → Requirement → String → Entry → Option Check → Result Decision
unfolding evaluate_known known_subject
evaluate_check c r fact_key e none = err (no_check r.id)
evaluate_check c r fact_key e (some check) =
    if not (member check.operator operators)
    then err (unknown_operator check.operator)
    else if not (known_subject check.subject)
    then err (unknown_subject check.subject)
    else evaluate_known c check fact_key e r.blocking

unfoldable pub evaluate_requirement : Requirement → Context → Result Decision
unfolding evaluate_check resolve_evidence new_entry resolve_fact_key
evaluate_requirement r c = do
  fact_key ← resolve_fact_key c r.fact_key
  evaluate_check c r fact_key
      (new_entry r fact_key (resolve_evidence c.world.list_chunks r.doc_id r.heading_path)) r.check

-- `any(decision.data_backed and decision.evaluable for decision in decisions)`.
abbrev pub grounded : List Decision → Bool
grounded ds = any (λ d. d.data_backed && d.evaluable) ds

abbrev pub settle_one : Bool → Decision → Decision
settle_one is_grounded d =
    if d.data_backed || is_grounded then d else record d { evaluable = false }

unfoldable pub settle_manual : List Decision → List Decision
settle_manual ds = map (settle_one (grounded ds)) ds

-- The decision's effective flag is what the entry publishes.
unfoldable pub publish : Decision → Entry
publish d = record (d.entry) { blocking = d.blocking }

unfoldable pub verdict : List Decision → Verdict
verdict ds =
    if not (any (λ d. d.evaluable) ds)
    then Verdict.insufficient_evidence
    else if any (λ d. d.blocking && d.evaluable && not d.is_met) ds
    then Verdict.non_compliant
    else if any (λ d. not d.is_met) ds
    then Verdict.conditional
    else Verdict.compliant

-- `derived.setdefault(key, value)`.
unfoldable pub set_default : String → Value → Dict → Dict
set_default key v d = elim (lookup key d) [ none ↦ insert key v d | some _ ↦ d ]

derive_span : Dict → List Date → Option Date → Option Date → Result Dict
unfolding set_default
derive_span p holidays (some start) (some end) =
    if ltb end start
    then err (end_before_start end start)
    else ok (
        set_default "days" (int (pos (business_days_inclusive start end holidays)))
          (set_default "duration_days" (int (days_from end start +ℤ pos 1)) p))
derive_span p holidays _ _ = ok p

unfoldable pub derive_parameters : Dict → List Date → Result Dict
unfolding derive_span
derive_parameters p holidays =
    derive_span p holidays (parse_date? (lookup "start_date" p)) (parse_date? (lookup "end_date" p))
