-- ===== src/Guards/Escalation.antt =====
-- G5, sensitive escalation (src/hrmosaic/agent/guardrails/g5.py). Whether a category's pattern finds
-- something in a message is the regular-expression engine's, and is an argument; so are the chunks of a
-- document, `none` where the index cannot be read.
use quantic_mosaic.Prelude.{
  Bool, Option, none, some, List, [], ◌∷◌, String, ◌<>◌, str_eq, if◌then◌else◌,
}
use quantic_mosaic.Guards.{Block, Payload, people_ops}
use quantic_mosaic.Guards.Citations.{Chunk}

abbrev escalation_doc_id : String
escalation_doc_id = "hr-escalation-and-case-handling"

abbrev escalation_heading : String
escalation_heading = "What Must Be Escalated"

abbrev default_category : String
default_category = "people_operations_case"

-- `CATEGORIES`: the category, the contact, and whether the pattern finds something.
abbrev pub Categories : Type 0
Categories = List (String × String × (String → Bool))

pub record Verdict : Type 0 where
  pub escalate : Bool
  pub category : String
  pub contact : String

unfoldable pub classify : Categories → String → String × String
classify [] message = (default_category, people_ops)
classify ((category, contact, finds) ∷ more) message =
    let rest = classify more message in if finds message then (category, contact) else rest

unfoldable pub evaluate : Categories → Bool → String → Verdict
unfolding classify
evaluate categories sensitive message =
    let (category, contact) = classify categories message in
    record { escalate = sensitive; category = category; contact = contact }

under_heading : List Chunk → Option String
under_heading [] = none
under_heading (chunk ∷ more) =
    let rest = under_heading more in
    if str_eq chunk.heading_path escalation_heading then some chunk.chunk_id else rest

abbrev readable : Option (List Chunk) → Option String
unfolding under_heading
readable none = none
readable (some chunks) = under_heading chunks

unfoldable pub evidence_chunk_id : (String → Option (List Chunk)) → Option String
unfolding readable
evidence_chunk_id list_chunks = readable (list_chunks escalation_doc_id)

abbrev one_or_none : Option String → List String
one_or_none none = []
one_or_none (some chunk_id) = if str_eq chunk_id "" then [] else chunk_id ∷ []

-- `escalation`: its one block.
unfoldable pub escalation : (String → Option (List Chunk)) → Verdict → List Block
unfolding evidence_chunk_id
escalation list_chunks verdict =
    record {
      type = "escalation";
      text =
          "This is a matter for a person, not for an automated assistant. Mosaic Robotics "
          <> "policy routes harassment, discrimination, retaliation, legal threats, medical "
          <> "matters and pay disputes to a named People Operations partner, so I will not "
          <> "answer it here. Contact " <> verdict.contact
          <> ", or raise a case in MosaicOne under "
          <> "\"Raise an HR case\". You may also use the third-party ethics line anonymously.";
      citations = one_or_none (evidence_chunk_id list_chunks);
      id = none;
    }
    ∷ []

unfoldable pub check : Categories → Bool → String → Verdict × Payload
unfolding evaluate
check categories sensitive message =
    let verdict = evaluate categories sensitive message in
    (
      verdict,
      record {
        rule_id = "G5";
        verdict = if verdict.escalate then "escalate" else "allow";
        reason =
            if verdict.escalate
            then "routed to " <> verdict.contact <> " as " <> verdict.category
            else "the router did not flag this turn as sensitive";
        evidence_span_ids = [];
        matched_pattern = none;
      },
    )
