-- ===== src/Guards/Facts.antt =====
-- G3, fact or recommendation (src/hrmosaic/agent/guardrails/g3.py).
use quantic_mosaic.Prelude.{
  ℕ, ◌+◌, ◌≡◌, refl, ap, Bool, false, ◌&&◌, none, List, [], ◌∷◌, String, ◌<>◌, str_eq, length, map,
  ltb, ◌==◌, if◌then◌else◌, Bool-cases, inl, inr,
}
use quantic_mosaic.Rules.Print.{show}
use quantic_mosaic.Guards.{Block, Payload}
use quantic_mosaic.Guards.Citations.Cascade.{is_empty}

pub record Outcome : Type 0 where
  pub blocks : List Block
  pub relabelled : List ℕ

abbrev pub is_uncited_fact : Block → Bool
is_uncited_fact block = str_eq block.type "policy_fact" && is_empty block.citations

abbrev pub relabel : Block → Block
relabel block = if is_uncited_fact block then record block { type = "recommendation" } else block

-- The loop, from this index on.
unfoldable pub apply_from : ℕ → List Block → Outcome
apply_from index [] = record { blocks = []; relabelled = [] }
apply_from index (block ∷ more) =
    let rest = apply_from (index + 1) more in
    record {
      blocks = relabel block ∷ rest.blocks;
      relabelled = if is_uncited_fact block then index ∷ rest.relabelled else rest.relabelled;
    }

unfoldable pub apply : List Block → Outcome
unfolding apply_from
apply blocks = apply_from 0 blocks

abbrev pub repaired : Outcome → Bool
repaired o = ltb 0 (length o.relabelled)

abbrev plural : ℕ → String
plural n = if n == 1 then "block" else "blocks"

unfoldable pub check : List Block → Outcome × Payload
unfolding apply show
check blocks =
    let o = apply blocks in
    (
      o,
      record {
        rule_id = "G3";
        verdict = if repaired o then "repair" else "allow";
        reason =
            if repaired o
            then show (length o.relabelled)
              <> " uncited policy_fact "
              <> plural (length o.relabelled)
              <> " relabelled as recommendation"
            else show (length o.blocks)
              <> " "
              <> plural (length o.blocks)
              <> ", every policy_fact cited";
        evidence_span_ids = [];
        matched_pattern = none;
      },
    )

relabel-cited : (block : Block) → is_uncited_fact (relabel block) ≡ false
relabel-cited block = elim (Bool-cases (is_uncited_fact block)) [
  | inl e ↦ rw e refl
  | inr e ↦ rw e e
]

apply_from-map :
    (index : ℕ) (blocks : List Block) → (apply_from index blocks).blocks ≡ map relabel blocks
unfolding apply_from
apply_from-map index [] = refl
apply_from-map index (block ∷ more) = ap (relabel block ∷◌) (apply_from-map (index + 1) more)

pub apply-map : (blocks : List Block) → (apply blocks).blocks ≡ map relabel blocks
unfolding apply
apply-map blocks = apply_from-map 0 blocks
