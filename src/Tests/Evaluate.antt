-- ===== src/Tests/Evaluate.antt =====
-- A scenario of two rows, one failed and one manual, through `evaluate`
-- (src/hrmosaic/mcpserver/rules.py).
use quantic_mosaic.Prelude.{◌≡◌, refl, true, none, some, [], ◌∷◌, map, keep, All, Any}
use quantic_mosaic.Prelude.Int.{pos}
use quantic_mosaic.Rules.Value.{int, text}
use quantic_mosaic.Calendar.Iso.{from_iso}
use quantic_mosaic.Calendar.Civil.{days_in_month}
use quantic_mosaic.Rules.Value.{parse_date?}
use quantic_mosaic.Rules.Computed.{subject, fact}
use quantic_mosaic.Rules.Operators.{guard_holds, compare_value}
use quantic_mosaic.Rules.Engine.{derive_parameters, evaluate_requirement, verdict}
use quantic_mosaic.Rules.Evaluate.{tenure_eligible_on}
use quantic_mosaic.Rules.Data.{
  World, Requirement, Approval, NextStep, Scenario, RuleSet, Report, Result, ok, err, Verdict,
  ChunkRow,
}
use quantic_mosaic.Rules.Engine.Verdicts.{published_verdict, is_unmet as unmet_status}
use quantic_mosaic.Rules.Evaluate.{Call, evaluate, approval_row}
use quantic_mosaic.Rules.Evaluate.Citations.{Distinct, IsCited, evaluate-citations}
use quantic_mosaic.Rules.Evaluate.Published.{
  Justified, evaluate-verdict, evaluate-unmet_ids, evaluate-approvals, evaluate-next_steps,
}

abbrev chunk : ChunkRow
chunk = record {
  chunk_id = "c1";
  doc_id = "pto.md";
  heading_path = "Limits";
  words = "Ten days.";
  char_start = 0;
}

abbrev pub world : World
world = record {
  list_chunks = λ doc. chunk ∷ [];
  float_repr = λ x. "0.5";
  int_of_text = λ s. none;
  float_of_text = λ s. none;
}

abbrev pub too_long : Requirement
too_long = record {
  id = "max-days";
  words = "At most ten days.";
  label = "Days";
  fact_key = "pto.max_days";
  doc_id = "pto.md";
  heading_path = "Limits";
  check = some (record { subject = "parameters.days"; operator = "lte"; compare_to = none });
  applies_when = none;
  blocking = true;
}

abbrev pub handover : Requirement
handover = record {
  id = "handover";
  words = "A handover note.";
  label = "Handover";
  fact_key = "pto.max_days";
  doc_id = "pto.md";
  heading_path = "Handover";
  check = some (record { subject = "parameters.days"; operator = "manual"; compare_to = none });
  applies_when = some "unmet:max-days";
  blocking = true;
}

abbrev escalation : Approval
escalation = record {
  role = "Director";
  reason = "Over the limit.";
  doc_id = "pto.md";
  heading_path = "Limits";
  applies_when = some "unmet:max-days";
}

abbrev pto : Scenario
pto = record {
  requirements = too_long ∷ handover ∷ [];
  approvals_required = escalation ∷ [];
  next_steps =
      record { words = "Shorten the request."; applies_when = some "unmet:max-days" }
      ∷ record { words = "Submit it."; applies_when = some "met:max-days" }
      ∷ [];
  escalate_to = "HR";
}

abbrev rule_set : RuleSet
rule_set = record {
  rules_version = "1";
  scenarios = ("pto", pto) ∷ [];
  facts = ("pto.max_days", int (pos 10)) ∷ [];
}

abbrev call : Call
call = record {
  employee = ("hire_date", text "2020-01-06") ∷ [];
  balance = record { fields = []; blackout_dates = [] };
  parameters = ("days", int (pos 12)) ∷ [];
  holidays = [];
  as_of = "2024-06-03";
  submitted_on = "2024-06-04";
  world = world;
}

abbrev blank : Report
blank = record {
  scenario = "";
  verdict = Verdict.compliant;
  as_of = "";
  submitted_on = "";
  computed = [];
  requirements = [];
  unmet_ids = [];
  approvals_required = [];
  next_steps = [];
  escalate_to = "";
  citations = [];
  rules_version = "";
}

abbrev body_or : Result Report → Report
body_or (ok body) = body
body_or (err e) = blank

abbrev body : Report
unfolding evaluate
body = body_or (evaluate "pto" call rule_set)

returns : evaluate "pto" call rule_set ≡ ok body
unfolding evaluate from_iso days_in_month derive_parameters parse_date? guard_holds
    evaluate_requirement subject compare_value fact tenure_eligible_on
returns = refl

fails : body.verdict ≡ Verdict.non_compliant
unfolding body from_iso days_in_month derive_parameters parse_date? guard_holds evaluate_requirement
    subject compare_value fact tenure_eligible_on verdict
fails = refl

steps : body.next_steps ≡ "Shorten the request." ∷ []
unfolding body from_iso days_in_month derive_parameters parse_date? guard_holds evaluate_requirement
    subject compare_value fact tenure_eligible_on
steps = refl

evaluate-verdict_example : body.verdict ≡ published_verdict body.requirements
evaluate-verdict_example = evaluate-verdict "pto" call rule_set pto body refl returns

evaluate-unmet_ids_example :
    body.unmet_ids ≡ map (λ e. e.id) (keep (λ e. unmet_status e.status) body.requirements)
evaluate-unmet_ids_example = evaluate-unmet_ids "pto" call rule_set pto body refl returns

evaluate-approvals_example :
    All
      (λ row.
        Any
          (λ (a : Approval). (row ≡ approval_row a) × Justified body.requirements a.applies_when)
          pto.approvals_required)
      body.approvals_required
evaluate-approvals_example = evaluate-approvals "pto" call rule_set pto body refl returns

evaluate-next_steps_example :
    All
      (λ words.
        Any
          (λ (s : NextStep). (words ≡ s.words) × Justified body.requirements s.applies_when)
          pto.next_steps)
      body.next_steps
evaluate-next_steps_example = evaluate-next_steps "pto" call rule_set pto body refl returns

evaluate-citations_example :
    Distinct body.citations × All (λ e. IsCited body.citations e.evidence) body.requirements
evaluate-citations_example = evaluate-citations "pto" call rule_set pto body refl returns
