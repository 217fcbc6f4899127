-- ===== src/Rules/Engine/Requirements.antt =====
-- What holds of every decision of `_evaluate_requirement`.
use quantic_mosaic.Prelude.{
  ◌≡◌, refl, Bool, true, false, ◌&&◌, Option, none, some, String, if◌then◌else◌,
}
use quantic_mosaic.Rules.Value.{Value}
use quantic_mosaic.Rules.Data.{
  Context, Check, Requirement, Evidence, Decision, Status, Reason, Result, ok, err, RuleError,
  ◌>>=◌,
}
use quantic_mosaic.Rules.Engine.{
  is_met_status, decision, new_entry, compare_expected, compare_subject, evaluate_comparison,
  evaluate_known, evaluate_check, evaluate_requirement,
}

-- A status that says that the row was evaluated.
abbrev pub was_checked : Status → Bool
was_checked Status.not_stated = false
was_checked Status.met = true
was_checked Status.unmet = true

-- Inversion of a step that succeeded.
pub >>=-eq-ok :
    {A B : Type 0} (first : Result A) (next : A → Result B) {result : B}
    → (first >>= next) ≡ ok result
    → (value : A) × (first ≡ ok value) × (next value ≡ ok result)
>>=-eq-ok (err e) next returned = cc
>>=-eq-ok (ok value) next returned = (value, refl, returned)

-- The published pair and the flags of one row agree with its status: `met` is exactly the status,
-- a row was checked against data exactly when it is not `not_stated`, and only a row that is checked
-- against data keeps the file's `blocking`.
pub record IsCoherent (r : Requirement) (d : Decision) : Type 0 where
  pub met_agrees : d.entry.met_flag ≡ is_met_status d.entry.status
  pub is_met_agrees : d.is_met ≡ is_met_status d.entry.status
  pub keeps_id : d.entry.id ≡ r.id
  pub checked_agrees : (d.data_backed && d.evaluable) ≡ was_checked d.entry.status
  pub blocking_from_file : d.blocking ≡ (d.data_backed && r.blocking)

module _ (r : Requirement) (fact_key : String) (evidence : Option Evidence) where
  compared-IsCoherent :
      (holds : Bool) (reason : Reason)
      → IsCoherent r (
          decision
            (new_entry r fact_key evidence)
            (if holds then Status.met else Status.unmet)
            reason
            true
            r.blocking
            true)
  unfolding decision new_entry
  compared-IsCoherent true reason = record {
    met_agrees = refl;
    is_met_agrees = refl;
    keeps_id = refl;
    checked_agrees = refl;
    blocking_from_file = refl;
  }
  compared-IsCoherent false reason = record {
    met_agrees = refl;
    is_met_agrees = refl;
    keeps_id = refl;
    checked_agrees = refl;
    blocking_from_file = refl;
  }

  standing-IsCoherent :
      (reason : Reason)
      → IsCoherent r
          (decision (new_entry r fact_key evidence) Status.met reason true r.blocking true)
  standing-IsCoherent = compared-IsCoherent true

  unchecked-IsCoherent :
      (reason : Reason)
      → IsCoherent r
          (decision (new_entry r fact_key evidence) Status.not_stated reason false r.blocking true)
  unfolding decision new_entry
  unchecked-IsCoherent reason = record {
    met_agrees = refl;
    is_met_agrees = refl;
    keeps_id = refl;
    checked_agrees = refl;
    blocking_from_file = refl;
  }

  manual-IsCoherent :
      (reason : Reason)
      → IsCoherent r
          (decision (new_entry r fact_key evidence) Status.not_stated reason true false false)
  unfolding decision new_entry
  manual-IsCoherent reason = record {
    met_agrees = refl;
    is_met_agrees = refl;
    keeps_id = refl;
    checked_agrees = refl;
    blocking_from_file = refl;
  }

-- A result that, where it is a decision, is a coherent one.
record Coherent (r : Requirement) (m : Result Decision) : Type 0 where
  at : (d : Decision) → m ≡ ok d → IsCoherent r d

pub ok_injective : {a b : Decision} → Result.ok a ≡ ok b → a ≡ b
ok_injective h = cc

module _ (r : Requirement) where
  Coherent-ok : (d : Decision) → IsCoherent r d → Coherent r (ok d)
  Coherent-ok d h = record { at = λ e p. rw (ok_injective p) at h }

  Coherent-err : (e : RuleError) → Coherent r (err e)
  Coherent-err e = record { at = λ d p. cc }

  Coherent-bind :
      {A : Type 0} (m : Result A) (f : A → Result Decision)
      → ((a : A) → Coherent r (f a))
      → Coherent r (m >>= f)
  Coherent-bind (ok a) f h = h a
  Coherent-bind (err e) f h = Coherent-err e

  Coherent-if :
      (b : Bool) (m n : Result Decision)
      → Coherent r m
      → Coherent r n
      → Coherent r (if b then m else n)
  Coherent-if true m n h k = h
  Coherent-if false m n h k = k

ruleset coherent_rules = (
  Coherent-ok, Coherent-err, Coherent-bind, Coherent-if, compared-IsCoherent, standing-IsCoherent,
  unchecked-IsCoherent, manual-IsCoherent,
)

module _ (c : Context) (r : Requirement) (check : Check) (fact_key : String)
    (evidence : Option Evidence) where
  compare_expected-Coherent :
      (value : Value) (expected : Option Value)
      → Coherent r
          (compare_expected c check (new_entry r fact_key evidence) r.blocking value expected)
  unfolding compare_expected
  compare_expected-Coherent value none = search coherent_rules
  compare_expected-Coherent value (some e) = search coherent_rules

  compare_subject-Coherent :
      (value : Option Value)
      → Coherent r
          (compare_subject c check fact_key (new_entry r fact_key evidence) r.blocking value)
  unfolding compare_subject
  compare_subject-Coherent none = search coherent_rules
  compare_subject-Coherent (some v) = search (coherent_rules, compare_expected-Coherent)

  evaluate_comparison-Coherent :
      Coherent r (evaluate_comparison c check fact_key (new_entry r fact_key evidence) r.blocking)
  unfolding evaluate_comparison
  evaluate_comparison-Coherent = search (coherent_rules, compare_subject-Coherent)

  evaluate_known-Coherent :
      Coherent r (evaluate_known c check fact_key (new_entry r fact_key evidence) r.blocking)
  unfolding evaluate_known
  evaluate_known-Coherent = search (coherent_rules, evaluate_comparison-Coherent)

module _ (c : Context) (r : Requirement) where
  evaluate_check-Coherent :
      (fact_key : String) (evidence : Option Evidence) (check : Option Check)
      → Coherent r (evaluate_check c r fact_key (new_entry r fact_key evidence) check)
  unfolding evaluate_check
  evaluate_check-Coherent fact_key evidence none = search coherent_rules
  evaluate_check-Coherent fact_key evidence (some check) =
      search (coherent_rules, evaluate_known-Coherent)

  evaluate_requirement-Coherent : Coherent r (evaluate_requirement r c)
  unfolding evaluate_requirement
  evaluate_requirement-Coherent = search (coherent_rules, evaluate_check-Coherent)

  pub evaluate_requirement-IsCoherent :
      (d : Decision) → evaluate_requirement r c ≡ ok d → IsCoherent r d
  evaluate_requirement-IsCoherent = evaluate_requirement-Coherent.at
