-- ===== src/Rules/Evaluate/Published.antt =====
-- The parts of the result body of `evaluate` (src/hrmosaic/mcpserver/rules.py) that depend on each
-- other: its rows, its verdict, its unmet ids, its approvals and its next steps.
use quantic_mosaic.Prelude.{
  ◌≡◌, refl, sym, ap, ◌∙◌, inl, inr, Bool, true, Option, none, some, List, [], ◌∷◌, String, map,
  lookup, keep, All, Any, All-map, All-map_list, Any-map, Any-map_list, before, after, arith,
  Bool-cases,
}
use mathlib.Core.Path.{subst}
use quantic_mosaic.Rules.Data.{
  Requirement, Approval, NextStep, Scenario, RuleSet, Entry, Decision, Status, Report, ok,
}
use quantic_mosaic.Rules.Operators.{guard_holds}
use quantic_mosaic.Rules.Operators.Guards.{guard-unmet, guard-met}
use quantic_mosaic.Rules.Engine.{is_met_status, settle_manual, settle_one, grounded, publish}
use quantic_mosaic.Rules.Engine.Requirements.{IsCoherent}
use quantic_mosaic.Rules.Engine.Verdicts.{
  Agrees, IsCoherent-Agrees, published_verdict, verdict-published, is_unmet as unmet_status,
}
use quantic_mosaic.Rules.Evaluate.{approval_row, unmet_ids, Call, evaluate, is_unmet}
use quantic_mosaic.Rules.Evaluate.Rows.{decide-Decides, Decides-FromFile, Decides-recorded}
use quantic_mosaic.Rules.Evaluate.Body.{Run, evaluate-Run, applying-Kept}

-- A published row against the requirement of the file that it came from.
pub record IsRowOf (r : Requirement) (e : Entry) : Type 0 where
  pub same_id : e.id ≡ r.id
  pub flag_agrees : e.met_flag ≡ is_met_status e.status
  pub blocks_from_file : e.blocking ≡ true → r.blocking ≡ true

module _ (ds : List Decision) where
  published-Any :
      (P : Entry → Type 0)
      → Any (λ d. P (publish (settle_one (grounded ds) d))) ds
      → Any P (map publish (settle_manual ds))
  unfolding settle_manual
  published-Any P h = Any-map_list P publish _ (Any-map_list (λ d. P (publish d)) _ ds h)

row-same :
    (g : Bool) (id : String) (s : Status) (d : Decision)
    → (d.entry.id ≡ id) × (d.entry.status ≡ s)
    → ((publish (settle_one g d)).id ≡ id) × ((publish (settle_one g d)).status ≡ s)
unfolding publish
row-same g id s d (p, q) = elim (Bool-cases (d.data_backed)) [
  | inl e ↦ rw e (p, q)
  | inr e ↦ elim (Bool-cases g) [ inl e' ↦ rw (e, e') (p, q) | inr e' ↦ rw (e, e') (p, q) ]
]

unmet-keep :
    (ds : List Decision)
    → unmet_ids ds ≡ map (λ e. e.id) (keep (λ e. unmet_status e.status) (map publish ds))
unfolding unmet_ids is_unmet publish
unmet-keep [] = refl
unmet-keep (d ∷ ds) = ground (arith, unmet-keep ds)

-- What an approval or a next step with this guard says of the rows.
abbrev pub Justified : List Entry → Option String → Type 0
Justified rows none = Unit
Justified rows (some guard) =
    (before b':' guard ≡ "unmet"
      → Any (λ e. (e.id ≡ after b':' guard) × (e.status ≡ Status.unmet)) rows)
    × (before b':' guard ≡ "met"
        → Any (λ e. (e.id ≡ after b':' guard) × (e.status ≡ Status.met)) rows)

module _ {spec : Scenario} {body : Report} (run : Run spec body) where
  from_file : All (λ d. Any (λ r. IsCoherent r d) spec.requirements) run.decisions
  from_file =
      Decides-FromFile run.context run.known (
        decide-Decides run.context run.known spec.requirements [] run.decisions run.decided run.ran)

  recorded :
      (id : String) (s : Status)
      → lookup id run.decided ≡ some s
      → Any (λ e. (e.id ≡ id) × (e.status ≡ s)) body.requirements
  recorded id s h = subst (Any (λ e. (e.id ≡ id) × (e.status ≡ s))) (sym run.requirements_eq) (
      published-Any run.decisions _ (
        Any-map run.decisions (λ d. row-same (grounded run.decisions) id s d)
          (elim (Decides-recorded run.context run.known id s
            (decide-Decides run.context run.known spec.requirements [] run.decisions run.decided
              run.ran)
            h) [ inl e ↦ cc e | inr found ↦ found ])))

  held-Justified :
      (guard : Option String)
      → guard_holds guard run.context run.decided run.known ≡ ok true
      → Justified body.requirements guard
  held-Justified none h = tt
  held-Justified (some guard) h = (
    λ e.
        recorded (after b':' guard) Status.unmet
          (guard-unmet run.context run.decided run.known guard h e),
    λ e.
        recorded (after b':' guard) Status.met
          (guard-met run.context run.decided run.known guard h e),
  )

some-Agrees : (d : Decision) (rs : List Requirement) → Any (λ r. IsCoherent r d) rs → Agrees d
some-Agrees d [] h = elim h [ ]
some-Agrees d (r ∷ rs) (inl h) = IsCoherent-Agrees r d h
some-Agrees d (r ∷ rs) (inr h) = some-Agrees d rs h

module _ (scenario : String) (call : Call) (rule_set : RuleSet) (spec : Scenario) (body : Report)
    (e : lookup scenario rule_set.scenarios ≡ some spec)
    (h : evaluate scenario call rule_set ≡ ok body) where
  -- Where `evaluate` returns a body for a scenario of the rules file, the verdict of the body is the
  -- one that its published rows call for: insufficient evidence if every row is not stated, else
  -- non-compliant if a row that is published as blocking is unmet, else conditional if some row is
  -- not met, else compliant.
  pub evaluate-verdict : body.verdict ≡ published_verdict body.requirements
  evaluate-verdict =
      let run = evaluate-Run scenario call rule_set spec body e h in
      run.verdict_eq
      ∙ verdict-published run.decisions
          (All-map run.decisions (λ d. some-Agrees d spec.requirements) (from_file run))
      ∙ ap published_verdict (sym run.requirements_eq)

  -- Where `evaluate` returns a body, its `unmet_ids` are the ids of its published rows whose status
  -- is unmet, in their order.
  pub evaluate-unmet_ids :
      body.unmet_ids ≡ map (λ e. e.id) (keep (λ e. unmet_status e.status) body.requirements)
  evaluate-unmet_ids =
      let run = evaluate-Run scenario call rule_set spec body e h in
      run.unmet_eq
      ∙ unmet-keep _
      ∙ ap (λ rows. map (λ e. e.id) (keep (λ e. unmet_status e.status) rows))
          (sym run.requirements_eq)

  -- Where `evaluate` returns a body, each approval it requires is one of the scenario's, and where
  -- that approval's guard is `unmet:<id>` (or `met:<id>`) the body has a row of that id whose status
  -- is unmet (or met).
  pub evaluate-approvals :
      All
        (λ row.
          Any
            (λ (a : Approval). (row ≡ approval_row a) × Justified body.requirements a.applies_when)
            spec.approvals_required)
        body.approvals_required
  evaluate-approvals =
      let run = evaluate-Run scenario call rule_set spec body e h in
      subst (All _) (sym run.approvals_eq) (
        All-map_list _ approval_row run.approvals (
          All-map run.approvals
            (λ k.
              Any-map spec.approvals_required
                (λ a p. (ap approval_row p.0, held-Justified run a.applies_when p.1)))
            (applying-Kept _ run.context run.known run.decided spec.approvals_required run.approvals
              run.kept_approvals)))

  -- Where `evaluate` returns a body, each of its next steps is one of the scenario's, and where that
  -- step's guard is `unmet:<id>` (or `met:<id>`) the body has a row of that id whose status is unmet
  -- (or met).
  pub evaluate-next_steps :
      All
        (λ words.
          Any
            (λ (s : NextStep). (words ≡ s.words) × Justified body.requirements s.applies_when)
            spec.next_steps)
        body.next_steps
  evaluate-next_steps =
      let run = evaluate-Run scenario call rule_set spec body e h in
      subst (All _) (sym run.steps_eq) (
        All-map_list _ (λ s. s.words) run.steps
          (All-map run.steps
            (λ k.
              Any-map spec.next_steps
                (λ s p. (ap (λ s. s.words) p.0, held-Justified run s.applies_when p.1)))
            (applying-Kept _ run.context run.known run.decided spec.next_steps run.steps
              run.kept_steps)))
