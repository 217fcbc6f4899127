-- ===== src/Guards.antt =====
-- The guardrails of an answer (src/hrmosaic/agent/guardrails): the blocks they work on, the span that
-- each check writes, and the rules themselves in the children.
pub mod Evidence
pub mod Citations
pub mod Facts
pub mod Shield
pub mod Escalation
pub mod Breadth
use quantic_mosaic.Prelude.{ℕ, Bool, Option, none, some, List, [], ◌∷◌, String, ◌<>◌, lookup}

-- One block of an answer. `id` is the marker `_block_id` of src/hrmosaic/agent/breadth.py.
pub record Block : Type 0 where
  pub type : String
  pub text : String
  pub citations : List String
  pub id : Option ℕ

abbrev pub rule_names : List (String × String)
rule_names =
    ("G1", "evidence_gate")
    ∷ ("G2", "citation_resolvability")
    ∷ ("G3", "fact_vs_recommendation")
    ∷ ("G4", "injection_shield")
    ∷ ("G5", "sensitive_escalation")
    ∷ ("G6", "pii_secret_redaction")
    ∷ []

abbrev joined : String → Option String → Option String
joined rule_id none = none
joined rule_id (some name) = some (rule_id <> "_" <> name)

-- `span_name`; none where the rule has no name and the source raises.
unfoldable pub span_name : String → Option String
span_name rule_id = joined rule_id (lookup rule_id rule_names)

-- What a check hands to `emit`, less the counts of its details.
pub record Payload : Type 0 where
  pub rule_id : String
  pub verdict : String
  pub reason : String
  pub evidence_span_ids : List String
  pub matched_pattern : Option String

abbrev pub people_ops : String
people_ops = "people-ops@mosaicrobotics.example"
