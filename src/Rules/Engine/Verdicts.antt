-- ===== src/Rules/Engine/Verdicts.antt =====
-- `_verdict` after `_settle_manual`, against the rows that a reader sees.
use quantic_mosaic.Prelude.{
  ◌≡◌, refl, ◌∙◌, Bool, true, false, not, ◌&&◌, List, [], ◌∷◌, map, any, All, All-map, All-map_list,
  All-All, any-map, arith, if◌then◌else◌, Bool-cases, inl, inr,
}
use quantic_mosaic.Rules.Data.{Requirement, Entry, Decision, Status, Verdict}
use quantic_mosaic.Rules.Engine.{
  is_met_status, grounded, settle_one, settle_manual, verdict, publish,
}
use quantic_mosaic.Rules.Engine.Requirements.{was_checked, IsCoherent}

abbrev pub is_unmet : Status → Bool
is_unmet Status.unmet = true
is_unmet Status.met = false
is_unmet Status.not_stated = false

-- The verdict that the published rows call for: nothing was checked, a blocking row failed, a row is
-- not met, or every row is met.
abbrev pub published_verdict : List Entry → Verdict
published_verdict rows =
    if not (any (λ e. was_checked e.status) rows)
    then Verdict.insufficient_evidence
    else if any (λ e. is_unmet e.status && e.blocking) rows
    then Verdict.non_compliant
    else if any (λ e. not (is_met_status e.status)) rows
    then Verdict.conditional
    else Verdict.compliant

-- What the verdict needs of a decision.
pub record Agrees (d : Decision) : Type 0 where
  is_met_agrees : d.is_met ≡ is_met_status d.entry.status
  checked_agrees : (d.data_backed && d.evaluable) ≡ was_checked d.entry.status
  blocking_is_backed : d.blocking ≡ true → d.data_backed ≡ true

pub IsCoherent-Agrees : (r : Requirement) (d : Decision) → IsCoherent r d → Agrees d
IsCoherent-Agrees r d h = record {
  is_met_agrees = h.is_met_agrees;
  checked_agrees = h.checked_agrees;
  blocking_is_backed = λ e. ground (arith, h.blocking_from_file);
}

ungrounded_evaluable :
    (ds : List Decision) → any (λ d. d.evaluable) (map (settle_one false) ds) ≡ grounded ds
ungrounded_evaluable [] = refl
ungrounded_evaluable (d ∷ ds) = ground (arith, ungrounded_evaluable ds)

grounded_evaluable :
    (ds : List Decision)
    → grounded ds ≡ true
    → any (λ d. d.evaluable) (map (settle_one true) ds) ≡ true
grounded_evaluable [] h = cc
grounded_evaluable (d ∷ ds) h = ground (arith, grounded_evaluable ds)

-- After `_settle_manual` something is evaluable exactly when a data-backed row was.
settled_evaluable : (ds : List Decision) → any (λ d. d.evaluable) (settle_manual ds) ≡ grounded ds
unfolding settle_manual
settled_evaluable ds = elim (Bool-cases (grounded ds)) [
  | inl e ↦ rw e (grounded_evaluable ds e)
  | inr e ↦ rw e (ungrounded_evaluable ds ∙ e)
]

module _ (d : Decision) (h : Agrees d) where
  checked_row :
      (g : Bool) → (d.data_backed && d.evaluable) ≡ was_checked (publish (settle_one g d)).status
  unfolding publish
  checked_row g = ground (arith, h.checked_agrees)

  blocking_row :
      (g : Bool)
      → ((settle_one g d).blocking && (settle_one g d).evaluable && not (settle_one g d).is_met)
        ≡ (is_unmet (publish (settle_one g d)).status && (publish (settle_one g d)).blocking)
  unfolding publish
  blocking_row g = ground (arith, h.is_met_agrees, h.checked_agrees, h.blocking_is_backed)

  unmet_row :
      (g : Bool)
      → not (settle_one g d).is_met ≡ not (is_met_status (publish (settle_one g d)).status)
  unfolding publish
  unmet_row g = ground (arith, h.is_met_agrees)

-- The three tests of `_verdict` on the settled rows, each a test of the published rows.
module _ (ds : List Decision) (h : All Agrees ds) where
  settled_checked :
      any (λ d. d.evaluable) (settle_manual ds)
      ≡ any (λ e. was_checked e.status) (map publish (settle_manual ds))
  unfolding settle_manual
  settled_checked =
      settled_evaluable ds
      ∙ any-map _ (λ d. was_checked (publish d).status) (settle_one (grounded ds)) ds
          (All-map ds (λ d a. checked_row d a (grounded ds)) h)
      ∙ any-map _ _ publish (map (settle_one (grounded ds)) ds) (All-All _ (λ d. refl))

  settled_blocking :
      any (λ d. d.blocking && d.evaluable && not d.is_met) (settle_manual ds)
      ≡ any (λ e. is_unmet e.status && e.blocking) (map publish (settle_manual ds))
  unfolding settle_manual
  settled_blocking = any-map _ _ publish _ (
      All-map_list _ (settle_one (grounded ds)) ds
        (All-map ds (λ d a. blocking_row d a (grounded ds)) h))

  settled_unmet :
      any (λ d. not d.is_met) (settle_manual ds)
      ≡ any (λ e. not (is_met_status e.status)) (map publish (settle_manual ds))
  unfolding settle_manual
  settled_unmet = any-map _ _ publish _ (
      All-map_list _ (settle_one (grounded ds)) ds
        (All-map ds (λ d a. unmet_row d a (grounded ds)) h))

  -- The verdict of the engine is the verdict that its published rows call for.
  pub verdict-published :
      verdict (settle_manual ds) ≡ published_verdict (map publish (settle_manual ds))
  unfolding verdict
  verdict-published = rw (settled_checked, settled_blocking, settled_unmet)
