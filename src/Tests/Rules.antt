-- ===== src/Tests/Rules.antt =====
-- Single rows, guards and parameters of src/hrmosaic/mcpserver/rules.py.
use quantic_mosaic.Prelude.{◌≡◌, refl, false, none, some, [], ◌∷◌, lookup}
use quantic_mosaic.Prelude.Int.{pos}
use quantic_mosaic.Rules.Value.{int, date, Dict, parse_date?}
use quantic_mosaic.Rules.Data.{Context, Decision, Reason, Status, Result, ok, err}
use quantic_mosaic.Rules.Engine.{evaluate_requirement, derive_parameters}
use quantic_mosaic.Rules.Engine.Derived.{derive_keeps_supplied}
use quantic_mosaic.Tests.Evaluate.{world, too_long}

abbrev context : Context
context = record {
  as_of = 739040;
  submitted_on = 739038;
  employee = ("tenure_months_at_as_of", int (pos 5)) ∷ [];
  balance = record { fields = []; blackout_dates = [] };
  parameters = ("days", int (pos 12)) ∷ ("start_date", date 739040) ∷ [];
  holidays = [];
  facts = ("pto.max_days", int (pos 10)) ∷ [];
  world = world;
}

abbrev blank : Decision
blank = record {
  entry = record {
    id = "";
    words = "";
    label = "";
    met_flag = false;
    status = Status.not_stated;
    reason = Reason.not_evaluated;
    blocking = false;
    fact_key = "";
    evidence = none;
  };
  is_met = false;
  evaluable = false;
  blocking = false;
  data_backed = false;
}

abbrev decided : Result Decision → Decision
decided (ok d) = d
decided (err e) = blank

abbrev limit_row : Decision
unfolding evaluate_requirement
limit_row = decided (evaluate_requirement too_long context)

abbrev parameters : Dict
parameters = ("start_date", date 739040) ∷ ("end_date", date 739046) ∷ []

abbrev derived : Result Dict → Dict
derived (ok d) = d
derived (err e) = []

abbrev filled : Dict
unfolding derive_parameters
filled = derived (derive_parameters parameters [])

derives : derive_parameters parameters [] ≡ ok filled
unfolding derive_parameters parse_date?
derives = refl

derive_keeps_supplied_example : lookup "end_date" filled ≡ some (date 739046)
derive_keeps_supplied_example =
    derive_keeps_supplied parameters [] "end_date" (date 739046) filled derives refl
