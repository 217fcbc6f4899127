-- ===== src/Guards/Evidence.antt =====
-- G1, the evidence gate (src/hrmosaic/agent/guardrails/g1.py). A score is a fixed-point number of
-- which only the order is used; how a score prints is a parameter.
pub mod Passes
use quantic_mosaic.Prelude.{
  first, ℕ, Bool, true, false, not, ◌&&◌, none, List, [], ◌∷◌, String, ◌<>◌, length, keep, leb, ltb,
  ◌==◌, if◌then◌else◌, starts,
}
use quantic_mosaic.Prelude.Int.{ℤ, pos, ltb_ℤ}
use quantic_mosaic.Rules.Print.{show}
use quantic_mosaic.Guards.{Block, Payload, people_ops}

abbrev no_evidence : String
no_evidence = "no policy evidence was retrieved for this question"

abbrev weak_evidence : String
weak_evidence = "the retrieved policy evidence is below the evidence threshold"

abbrev out_of_scope : String
out_of_scope = "the question is not about Mosaic Robotics HR policy or your own HR data"

abbrev confirmation_invalid : String
confirmation_invalid = "the confirmation could not be validated"

abbrev confirmation_missing : String
confirmation_missing = "there is no gated tool call on this turn to confirm"

abbrev performed_write : String
performed_write = "the write this turn performed is the evidence for the answer"

abbrev user_refusal : String
user_refusal =
    "I could not find anything in Mosaic's policy library that answers this, so I would rather not "
    <> "guess. I only answer from Mosaic policy and your own HR record."

abbrev out_of_scope_refusal : String
out_of_scope_refusal =
    "That is outside what I can help with here — I only answer from Mosaic policy and your own HR record."

abbrev confirmation_refusal : String
confirmation_refusal =
    "I could not act on that confirmation, so nothing was created or sent. A confirmation is good "
    <> "for a few minutes and can only be used once — ask me again and I will put a fresh one in front "
    <> "of you."

abbrev refusal_copy : List (String × String)
refusal_copy =
    (no_evidence, user_refusal)
    ∷ (weak_evidence, user_refusal)
    ∷ (out_of_scope, out_of_scope_refusal)
    ∷ (confirmation_invalid, confirmation_refusal)
    ∷ (confirmation_missing, confirmation_refusal)
    ∷ []

first_copy : String → List (String × String) → String
unfolding starts
first_copy reason [] = user_refusal
first_copy reason ((prefix, copy) ∷ more) =
    let rest = first_copy reason more in if starts prefix reason then copy else rest

refusal_text : String → String
unfolding first_copy
refusal_text reason = first_copy reason refusal_copy

abbrev example_topics : List String
example_topics =
    "PTO and holidays" ∷ "remote and hybrid work" ∷ "travel and expenses" ∷ "benefits" ∷ "conduct"
    ∷ []

-- `_sentence`: "A, B and C".
comma_list : String → List String → String
comma_list item [] = item
comma_list item (last ∷ []) = item <> " and " <> last
comma_list item (next ∷ more ∷ rest) = item <> ", " <> comma_list next (more ∷ rest)

sentence : List String → String
unfolding comma_list
sentence [] = ""
sentence (item ∷ rest) = comma_list item rest

pub record Answer : Type 0 where
  pub blocks : List Block
  pub next_steps : List String
  pub rationale_summary : String

unfoldable pub refusal : String → Answer
unfolding refusal_text sentence first
refusal reason = record {
  blocks = record { type = "notice"; text = refusal_text reason; citations = []; id = none } ∷ [];
  next_steps =
      ("I can help with things like " <> sentence example_topics <> ".")
      ∷ ("If this is urgent, contact People Operations at " <> people_ops <> ".")
      ∷ [];
  rationale_summary = first 200 ("Refused and redirected: " <> reason <> ".");
}

pub record Verdict : Type 0 where
  pub passed : Bool
  pub reason : String
  pub max_dense_score : ℤ
  pub supporting : ℕ
  pub candidates : ℕ

abbrev pub geb_ℤ : ℤ → ℤ → Bool
geb_ℤ a b = not (ltb_ℤ a b)

-- `max(scores) if scores else 0.0`.
abbrev larger : ℤ → ℤ → ℤ
larger a b = if ltb_ℤ a b then b else a

unfoldable pub max_from : ℤ → List ℤ → ℤ
max_from top [] = top
max_from top (score ∷ scores) = max_from (larger top score) scores

unfoldable pub top_of : List ℤ → ℤ
unfolding max_from
top_of [] = pos 0
top_of (score ∷ scores) = max_from score scores

abbrev pub has_scores : List ℤ → Bool
has_scores [] = false
has_scores (score ∷ scores) = true

abbrev pub supporting_of : ℤ → List ℤ → ℕ
supporting_of least scores = length (keep (λ score. geb_ℤ score least) scores)

abbrev passages : ℕ → String
passages supporting = if supporting == 1 then "passage" else "passages"

module _ (min_evidence_score min_support_score : ℤ) where
  -- `passed`, before the exemption.
  unfoldable pub measured : List ℤ → Bool
  unfolding top_of
  measured scores =
      has_scores scores
      && (geb_ℤ (top_of scores) min_evidence_score
          && leb 2 (supporting_of min_support_score scores))

module _ (two_places : ℤ → String) (min_evidence_score min_support_score : ℤ) where
  abbrev low_text : ℤ → String
  low_text top =
      weak_evidence
      <> (": evidence-gate score " <> two_places top <> " < " <> two_places min_evidence_score)

  few_text : ℕ → String
  unfolding show
  few_text supporting =
      weak_evidence
      <> (": "
          <> show supporting
          <> " "
          <> passages supporting
          <> " at or above "
          <> two_places min_support_score
          <> ", 2 required")

  pass_text : ℤ → ℕ → String
  unfolding show
  pass_text top supporting =
      "evidence-gate score "
      <> two_places top
      <> ", "
      <> show supporting
      <> " supporting "
      <> passages supporting

  reason_of : List ℤ → ℕ → String
  unfolding top_of few_text pass_text
  reason_of scores supporting =
      if not (has_scores scores)
      then no_evidence
      else if ltb_ℤ (top_of scores) min_evidence_score
      then low_text (top_of scores)
      else if ltb supporting 2
      then few_text supporting
      else pass_text (top_of scores) supporting

  unfoldable pub evaluate : List ℤ → Bool → Verdict
  unfolding reason_of measured top_of
  evaluate scores grounded_by_write =
      let supporting = supporting_of min_support_score scores in
      let reason = reason_of scores supporting in
      let exempt =
        not (measured min_evidence_score min_support_score scores) && grounded_by_write in
      record {
        passed = if exempt then true else measured min_evidence_score min_support_score scores;
        reason = if exempt then performed_write <> ": " <> reason else reason;
        max_dense_score = top_of scores;
        supporting = supporting;
        candidates = length scores;
      }

  unfoldable pub check : List ℤ → List String → Bool → Verdict × Payload
  unfolding evaluate
  check scores evidence_span_ids grounded_by_write =
      let verdict = evaluate scores grounded_by_write in
      (
        verdict,
        record {
          rule_id = "G1";
          verdict = if verdict.passed then "allow" else "refuse";
          reason = verdict.reason;
          evidence_span_ids = evidence_span_ids;
          matched_pattern = none;
        },
      )
