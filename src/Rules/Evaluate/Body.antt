-- ===== src/Rules/Evaluate/Body.antt =====
-- A run of `evaluate` (src/hrmosaic/mcpserver/rules.py) that returns a body, step by step.
use quantic_mosaic.Prelude.{
  ◌≡◌, refl, sym, ap, inl, inr, Bool, true, false, Option, none, some, List, [], ◌∷◌, String, map,
  lookup, All, Any, All-map, if◌then◌else◌,
}
use mathlib.Core.Path.{subst}
use quantic_mosaic.Rules.Value.{text}
use quantic_mosaic.Rules.Data.{
  Context, Approval, NextStep, Scenario, RuleSet, Decision, Report, Result, RuleError, ok,
  unparseable_as_of, unparseable_submitted_on,
}
use quantic_mosaic.Rules.Operators.{guard_holds}
use quantic_mosaic.Rules.Spans.{parsed_dates}
use quantic_mosaic.Rules.Evaluate.{cite_all}
use quantic_mosaic.Rules.Engine.{resolve_evidence}
use quantic_mosaic.Rules.Engine.{settle_manual, verdict, derive_parameters, publish}
use quantic_mosaic.Rules.Engine.Requirements.{>>=-eq-ok}
use quantic_mosaic.Rules.Evaluate.{
  Decided, decide, applying, approval_row, unmet_ids, report, Call, evaluate, run_scenario, body_of,
  tenure_eligible_on, scenario_of, date_or, or_raise,
}

-- One run that produced a body: the scenario, the decided rows and what the guards kept.
pub record Run (spec : Scenario) (body : Report) : Type 0 where
  pub context : Context
  pub known : List String
  pub decisions : List Decision
  pub decided : Decided
  pub approvals : List Approval
  pub steps : List NextStep
  pub ran : decide spec.requirements context known [] ≡ ok (decisions, decided)
  pub kept_approvals :
      applying (λ (a : Approval). a.applies_when) context known decided spec.approvals_required
      ≡ ok approvals
  pub kept_steps :
      applying (λ (s : NextStep). s.applies_when) context known decided spec.next_steps ≡ ok steps
  pub verdict_eq : body.verdict ≡ verdict (settle_manual decisions)
  pub requirements_eq : body.requirements ≡ map publish (settle_manual decisions)
  pub unmet_eq : body.unmet_ids ≡ unmet_ids (settle_manual decisions)
  pub approvals_eq : body.approvals_required ≡ map approval_row approvals
  pub citations_eq :
      body.citations
      ≡ cite_all
          (cite_all [] (map (λ d. d.entry.evidence) (settle_manual decisions)))
          (map (λ a. resolve_evidence context.world.list_chunks a.doc_id a.heading_path) approvals)
  pub steps_eq : body.next_steps ≡ map (λ s. s.words) steps

ok_eq : {x y : Report} → Result.ok x ≡ ok y → y ≡ x
ok_eq g = cc

run_scenario-Run :
    (scenario as_of : String) (rule_set : RuleSet) (spec : Scenario) (c : Context)
    (known : List String) (body : Report)
    → run_scenario scenario as_of rule_set spec c known ≡ ok body
    → Run spec body
unfolding run_scenario report
run_scenario-Run scenario as_of rule_set spec c known body h =
    let ((ds, decided), r, h0) = >>=-eq-ok (decide spec.requirements c known []) _ h in
    let (approvals, p, h1) =
      >>=-eq-ok
        (applying (λ (a : Approval). a.applies_when) c known decided spec.approvals_required) _
        h0 in
    let (steps, q, h2) =
      >>=-eq-ok (applying (λ (s : NextStep). s.applies_when) c known decided spec.next_steps) _
        h1 in
    let (eligible, _, h3) =
      >>=-eq-ok (tenure_eligible_on spec.requirements (settle_manual ds) c) _ h2 in
    let e = ok_eq h3 in
    record {
      context = c;
      known = known;
      decisions = ds;
      decided = decided;
      approvals = approvals;
      steps = steps;
      ran = r;
      kept_approvals = p;
      kept_steps = q;
      verdict_eq = unfold body_of in ap (λ b. b.verdict) e;
      requirements_eq = unfold body_of in ap (λ b. b.requirements) e;
      unmet_eq = unfold body_of in ap (λ b. b.unmet_ids) e;
      approvals_eq = unfold body_of in ap (λ b. b.approvals_required) e;
      citations_eq = unfold body_of in ap (λ b. b.citations) e;
      steps_eq = unfold body_of in ap (λ b. b.next_steps) e;
    }

or_raise-found :
    {A : Type 0} (e : RuleError) (o : Option A) (found given : A)
    → or_raise e o ≡ ok found
    → o ≡ some given
    → found ≡ given
or_raise-found e none found given h p = cc
or_raise-found e (some a) found given h p = cc

pub evaluate-Run :
    (scenario : String) (call : Call) (rule_set : RuleSet) (spec : Scenario) (body : Report)
    → lookup scenario rule_set.scenarios ≡ some spec
    → evaluate scenario call rule_set ≡ ok body
    → Run spec body
unfolding evaluate
evaluate-Run scenario call rule_set spec body e h =
    let (found, f, h1) = >>=-eq-ok (scenario_of scenario rule_set) _ h in
    let (snapshot, _, h2) = >>=-eq-ok (date_or (unparseable_as_of call.as_of) call.as_of) _ h1 in
    let (submitted, _, h3) =
      >>=-eq-ok (date_or (unparseable_submitted_on call.submitted_on) call.submitted_on) _ h2 in
    let (derived, _, h4) =
      >>=-eq-ok (derive_parameters call.parameters (parsed_dates (map text call.holidays))) _ h3 in
    subst (λ s. Run s body) (or_raise-found _ (lookup scenario rule_set.scenarios) found spec f e)
      (run_scenario-Run scenario call.as_of rule_set found _ _ body h4)

ok_list : {A : Type 0} {xs ys : List A} → Result.ok xs ≡ ok ys → ys ≡ xs
ok_list g = cc

module _ {A : Type 0} (guard : A → Option String) (c : Context) (known : List String)
    (decided : Decided) where
  abbrev pub Kept : List A → A → Type 0
  Kept xs k = Any (λ x. (k ≡ x) × (guard_holds (guard x) c decided known ≡ ok true)) xs

  Kept-round :
      (x : A) (xs later kept : List A) (applies : Bool)
      → guard_holds (guard x) c decided known ≡ ok applies
      → All (Kept xs) later
      → kept ≡ (if applies then x ∷ later else later)
      → All (Kept (x ∷ xs)) kept
  Kept-round x xs later kept true g h e =
      subst (All (Kept (x ∷ xs))) (sym e) (inl (refl, g), All-map later (λ k p. inr p) h)
  Kept-round x xs later kept false g h e =
      subst (All (Kept (x ∷ xs))) (sym e) (All-map later (λ k p. inr p) h)

  -- What the guards keep is part of the list, and its guards hold.
  pub applying-Kept :
      (xs kept : List A) → applying guard c known decided xs ≡ ok kept → All (Kept xs) kept
  unfolding applying
  applying-Kept [] kept h = subst (All (Kept [])) (sym (ok_list h)) tt
  applying-Kept (x ∷ xs) kept h =
      let (applies, g, h1) = >>=-eq-ok (guard_holds (guard x) c decided known) _ h in
      let (later, p, h2) = >>=-eq-ok (applying guard c known decided xs) _ h1 in
      Kept-round x xs later kept applies g (applying-Kept xs later p) (ok_list h2)
