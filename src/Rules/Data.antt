-- ===== src/Rules/Data.antt =====
-- The records of src/hrmosaic/mcpserver/rules.py: the rules file (`RuleSet`), one call's inputs
-- (`Context`), and what the engine decides (`Decision`, the entry and the result body).
use quantic_mosaic.Prelude.{ℕ, Bool, Option, String, List}
use quantic_mosaic.Prelude.Int.{ℤ}
use quantic_mosaic.Calendar.Civil.{Date}
use quantic_mosaic.Rules.Value.{Value, Dict}

-- Where `RuleError` is raised, with what its message names.
pub data RuleError : Type 0 where
  unknown_scenario : String → RuleError
  unparseable_as_of : String → RuleError
  unparseable_submitted_on : String → RuleError
  end_before_start : Date → Date → RuleError
  unknown_fact_key : String → RuleError
  indirect_fact_key : String → RuleError
  no_check : String → RuleError
  unknown_operator : String → RuleError
  unknown_subject : String → RuleError
  unknown_compare_to : String → RuleError
  unknown_applies_when : String → RuleError
  guard_names_no_requirement : String → RuleError
  needs_two_dates : String → Value → Value → RuleError
  needs_two_numbers : String → Value → Value → RuleError

pub data Result (A : Type 0) : Type 0 where
  ok : A → Result A
  err : RuleError → Result A

infixl 5 ◌>>=◌
abbrev pub ◌>>=◌ : {A B : Type 0} → Result A → (A → Result B) → Result B
ok a >>= f = f a
err e >>= f = err e

pub record Check : Type 0 where
  pub subject : String
  pub operator : String
  pub compare_to : Option String

pub record Requirement : Type 0 where
  pub id : String
  pub words : String
  pub label : String
  pub fact_key : String
  pub doc_id : String
  pub heading_path : String
  pub check : Option Check
  pub applies_when : Option String
  pub blocking : Bool

pub record Approval : Type 0 where
  pub role : String
  pub reason : String
  pub doc_id : String
  pub heading_path : String
  pub applies_when : Option String

-- An approval as the result carries it, without its guard.
pub record ApprovalRow : Type 0 where
  pub role : String
  pub reason : String
  pub doc_id : String
  pub heading_path : String

pub record NextStep : Type 0 where
  pub words : String
  pub applies_when : Option String

pub record Scenario : Type 0 where
  pub requirements : List Requirement
  pub approvals_required : List Approval
  pub next_steps : List NextStep
  pub escalate_to : String

pub record RuleSet : Type 0 where
  pub rules_version : String
  pub scenarios : List (String × Scenario)
  pub facts : Dict

-- One row of `corpusread.list_chunks`.
pub record ChunkRow : Type 0 where
  pub chunk_id : String
  pub doc_id : String
  pub heading_path : String
  pub words : String
  pub char_start : ℕ

pub record Evidence : Type 0 where
  pub chunk_id : String
  pub doc_id : String
  pub heading_path : String
  pub snippet : String

-- What the engine takes from outside: the chunk rows of a document, as the index returns them, and
-- three conversions of the interpreter (`repr` of a float, `int(text)` and `float(text)`).
pub record World : Type 0 where
  pub list_chunks : String → List ChunkRow
  pub float_repr : ℤ → String
  pub int_of_text : String → Option ℤ
  pub float_of_text : String → Option ℤ

-- The employee's balance row: its scalar fields, and its list of blackout dates.
pub record Balance : Type 0 where
  pub fields : Dict
  pub blackout_dates : List Value

pub record Context : Type 0 where
  pub as_of : Date
  pub submitted_on : Date
  pub employee : Dict
  pub balance : Balance
  pub parameters : Dict
  pub holidays : List Date
  pub facts : Dict
  pub world : World

pub data Status : Type 0 where
  met unmet not_stated : Status

pub data Source : Type 0 where
  policy request : Source

-- The texts of `reason`, with the values that each one names.
pub data Reason : Type 0 where
  not_evaluated : Reason
  standing_rule : Value → Reason
  confirm_first : Reason
  snapshot_is_later : Date → Date → Reason
  not_supplied : String → Reason
  comparison_not_supplied : Option String → Reason
  compared : String → Value → Source → Value → String → Reason

pub record Entry : Type 0 where
  pub id : String
  pub words : String
  pub label : String
  pub met_flag : Bool
  pub status : Status
  pub reason : Reason
  pub blocking : Bool
  pub fact_key : String
  pub evidence : Option Evidence

pub record Decision : Type 0 where
  pub entry : Entry
  pub is_met : Bool
  pub evaluable : Bool
  pub blocking : Bool
  pub data_backed : Bool

pub data Verdict : Type 0 where
  compliant conditional non_compliant insufficient_evidence : Verdict

pub record Citation : Type 0 where
  pub chunk_id : String
  pub doc_id : String
  pub heading_path : String

-- The body that `evaluate` returns.
pub record Report : Type 0 where
  pub scenario : String
  pub verdict : Verdict
  pub as_of : String
  pub submitted_on : String
  pub computed : Dict
  pub requirements : List Entry
  pub unmet_ids : List String
  pub approvals_required : List ApprovalRow
  pub next_steps : List String
  pub escalate_to : String
  pub citations : List Citation
  pub rules_version : String
