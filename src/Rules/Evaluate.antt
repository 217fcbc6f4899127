-- ===== src/Rules/Evaluate.antt =====
-- `tenure_eligible_on` and `evaluate` (src/hrmosaic/mcpserver/rules.py): one scenario, from the rules
-- file and one call's arguments to the result body.
pub mod Rows
pub mod Body
pub mod Published
pub mod Citations
use quantic_mosaic.Prelude.{
  ℕ, ◌+◌, ◌≡◌, Bool, true, false, not, Option, none, some, List, [], ◌∷◌, ◌++◌, String, map, lookup,
  insert, member, keep, if◌then◌else◌,
}
use quantic_mosaic.Prelude.Int.{ℤ, pos, negsuc, pos_part}
use quantic_mosaic.Calendar.Civil.{Date}
use quantic_mosaic.Calendar.Iso.{from_iso}
use quantic_mosaic.Calendar.Month.{add_months}
use quantic_mosaic.Rules.Value.{Value, text, Dict, numeric, parse_date?, trunc, add_days}
use quantic_mosaic.Rules.Print.{iso_text}
use quantic_mosaic.Rules.Data.{
  World, Balance, Context, Check, Requirement, Approval, ApprovalRow, NextStep, Scenario, RuleSet,
  ChunkRow, Evidence, RuleError, Entry, Decision, Status, Citation, Report, Result, ok, err, ◌>>=◌,
  unknown_scenario, unparseable_as_of, unparseable_submitted_on,
}
use quantic_mosaic.Rules.Computed.{computed, fact, resolve_fact_key}
use quantic_mosaic.Rules.Operators.{guard_holds}
use quantic_mosaic.Rules.Spans.{parsed_dates}
use quantic_mosaic.Rules.Engine.{
  resolve_evidence, evaluate_requirement, settle_manual, verdict, derive_parameters, publish,
}

-- The units of `TENURE_SUBJECTS`.
pub data TenureUnit : Type 0 where
  months days : TenureUnit

tenure_unit : Option Check → Option TenureUnit
tenure_unit none = none
tenure_unit (some check) =
    if member check.subject ("employee.tenure_months_at_as_of" ∷ [])
    then some months
    else if member check.subject ("computed.tenure_days" ∷ [])
    then some days
    else none

-- A threshold in months is not negative in the facts, and reads as 0 here if it were.
reached_on : Date → TenureUnit → ℤ → Date
unfolding add_days trunc
reached_on hire days expected = add_days hire (trunc expected)
reached_on hire months expected = add_months hire (pos_part (trunc expected))

unfoldable pub is_unmet : Status → Bool
is_unmet Status.unmet = true
is_unmet _ = false

-- The ids of the rows that were checked and failed.
unfoldable pub unmet_ids : List Decision → List String
unfolding is_unmet
unmet_ids ds = map (λ d. d.entry.id) (keep (λ d. is_unmet d.entry.status) ds)

threshold : Requirement → Context → Result (Option ℤ)
unfolding numeric
threshold r c = do
  fact_key ← resolve_fact_key c r.fact_key
  value ← fact c fact_key
  ok (numeric value)

eligible_in : List Requirement → List String → Context → Date → Result (Option Date)
unfolding threshold tenure_unit reached_on
eligible_in [] unmet c hire = ok none
eligible_in (r ∷ rs) unmet c hire =
    let rest = eligible_in rs unmet c hire in
    elim (if member r.id unmet then tenure_unit r.check else none) [
      | none ↦ rest
      | some unit ↦
          (threshold r c
            >>= elim [ none ↦ rest | some expected ↦ ok (some (reached_on hire unit expected)) ])
    ]

eligible_from : List Requirement → List Decision → Context → Option Date → Result (Option Date)
unfolding eligible_in unmet_ids
eligible_from rs ds c none = ok none
eligible_from rs ds c (some hire) = eligible_in rs (unmet_ids ds) c hire

unfoldable pub tenure_eligible_on :
    List Requirement → List Decision → Context → Result (Option Date)
unfolding eligible_from
tenure_eligible_on rs ds c = eligible_from rs ds c (parse_date? (lookup "hire_date" c.employee))

abbrev pub Decided : Type 0
Decided = List (String × Status)

-- One round of the loop over the requirements, by the row's guard: a row whose guard fails is left
-- out, and a row decided is there for the guards of the rows after it.
decide_round :
    (Decided → Result (List Decision × Decided))
    → Requirement
    → Context
    → Decided
    → Bool
    → Result (List Decision × Decided)
decide_round rest r c decided false = rest decided
decide_round rest r c decided true = do
  d ← evaluate_requirement r c
  (later, after_all) ← rest (insert d.entry.id d.entry.status decided)
  ok (d ∷ later, after_all)

-- The loop, in file order.
unfoldable pub decide :
    List Requirement → Context → List String → Decided → Result (List Decision × Decided)
unfolding decide_round
decide [] c known decided = ok ([], decided)
decide (r ∷ rs) c known decided = do
  applies ← guard_holds r.applies_when c decided known
  decide_round (λ decided'. decide rs c known decided') r c decided applies

-- `[item for item in items if guard_holds(item.get("applies_when"), …)]`.
module _ {A : Type 0} (guard : A → Option String) (c : Context) (known : List String)
    (decided : Decided) where
  unfoldable pub applying : List A → Result (List A)
  applying [] = ok []
  applying (x ∷ xs) = do
    applies ← guard_holds (guard x) c decided known
    later ← applying xs
    ok (if applies then x ∷ later else later)

pub approval_row : Approval → ApprovalRow
approval_row a = record {
  role = a.role;
  reason = a.reason;
  doc_id = a.doc_id;
  heading_path = a.heading_path;
}

-- One more citation, unless its chunk is cited already; `seen` holds the chunks of `citations`.
unfoldable pub cite : List Citation → Option Evidence → List Citation
cite cited none = cited
cite cited (some e) =
    if member e.chunk_id (map (λ c. c.chunk_id) cited)
    then cited
    else cited
      ++ record { chunk_id = e.chunk_id; doc_id = e.doc_id; heading_path = e.heading_path } ∷ []

unfoldable pub cite_all : List Citation → List (Option Evidence) → List Citation
unfolding cite
cite_all cited [] = cited
cite_all cited (e ∷ es) = cite_all (cite cited e) es

with_eligible : Option Date → Dict → Dict
with_eligible none values = values
with_eligible (some day) values = insert "tenure_eligible_on" (text (iso_text day)) values

-- The body, from what the guards kept and the day that the tenure rows name.
pub body_of :
    String
    → String
    → RuleSet
    → Scenario
    → Context
    → List Decision
    → List Approval
    → List NextStep
    → Option Date
    → Report
unfolding approval_row cite_all publish with_eligible computed
body_of scenario as_of rule_set spec c ds approvals steps eligible = record {
  scenario = scenario;
  verdict = verdict ds;
  as_of = as_of;
  submitted_on = iso_text c.submitted_on;
  computed = with_eligible eligible (computed c);
  requirements = map publish ds;
  unmet_ids = unmet_ids ds;
  approvals_required = map approval_row approvals;
  next_steps = map (λ s. s.words) steps;
  escalate_to = spec.escalate_to;
  citations =
      cite_all (cite_all [] (map (λ d. d.entry.evidence) ds))
        (map (λ a. resolve_evidence c.world.list_chunks a.doc_id a.heading_path) approvals);
  rules_version = rule_set.rules_version;
}

pub report :
    String
    → String
    → RuleSet
    → Scenario
    → Context
    → List String
    → List Decision
    → Decided
    → Result Report
unfolding applying body_of
report scenario as_of rule_set spec c known ds decided = do
  approvals ← applying (λ (a : Approval). a.applies_when) c known decided spec.approvals_required
  steps ← applying (λ (s : NextStep). s.applies_when) c known decided spec.next_steps
  eligible ← tenure_eligible_on spec.requirements ds c
  ok (body_of scenario as_of rule_set spec c ds approvals steps eligible)

pub run_scenario : String → String → RuleSet → Scenario → Context → List String → Result Report
unfolding decide report settle_manual
run_scenario scenario as_of rule_set spec c known = do
  (ds, decided) ← decide spec.requirements c known []
  report scenario as_of rule_set spec c known (settle_manual ds) decided

-- The arguments of one call.
pub record Call : Type 0 where
  pub employee : Dict
  pub balance : Balance
  pub parameters : Dict
  pub holidays : List String
  pub as_of : String
  pub submitted_on : String
  pub world : World

unfoldable pub context_of : Call → RuleSet → Date → Date → Dict → Context
unfolding parsed_dates
context_of call rule_set snapshot submitted derived = record {
  as_of = snapshot;
  submitted_on = submitted;
  employee = call.employee;
  balance = call.balance;
  parameters = derived;
  holidays = parsed_dates (map text call.holidays);
  facts = rule_set.facts;
  world = call.world;
}

abbrev pub or_raise : {A : Type 0} → RuleError → Option A → Result A
or_raise e none = err e
or_raise e (some a) = ok a

abbrev pub scenario_of : String → RuleSet → Result Scenario
scenario_of scenario rule_set =
    or_raise (unknown_scenario scenario) (lookup scenario rule_set.scenarios)

abbrev pub date_or : RuleError → String → Result Date
date_or e s = or_raise e (from_iso s)

unfoldable pub evaluate : String → Call → RuleSet → Result Report
unfolding run_scenario context_of
evaluate scenario call rule_set = do
  spec ← scenario_of scenario rule_set
  snapshot ← date_or (unparseable_as_of call.as_of) call.as_of
  submitted ← date_or (unparseable_submitted_on call.submitted_on) call.submitted_on
  derived ← derive_parameters call.parameters (parsed_dates (map text call.holidays))
  run_scenario scenario call.as_of rule_set spec
      (context_of call rule_set snapshot submitted derived) (map (λ r. r.id) spec.requirements)
