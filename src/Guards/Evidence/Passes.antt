-- ===== src/Guards/Evidence/Passes.antt =====
-- When the evidence gate (src/hrmosaic/agent/guardrails/g1.py) lets a turn answer.
use quantic_mosaic.Prelude.{
  ◌≤◌, ◌≡◌, ◌↔◌, ◌⊎◌, inl, inr, Bool, true, ◌&&◌, List, [], ◌∷◌, String, Any, arith, if◌then◌else◌,
}
use quantic_mosaic.Prelude.Int.{ℤ, ltb_ℤ, ◌≤ℤ◌}
use quantic_mosaic.Guards.Evidence.{
  geb_ℤ, max_from, top_of, has_scores, supporting_of, measured, evaluate,
}

abbrev Reaches : ℤ → ℤ → Type 0
Reaches least score = least ≤ℤ score

abbrev larger : ℤ → ℤ → ℤ
larger a b = if ltb_ℤ a b then b else a

Reaches-larger : (least a b : ℤ) → (least ≤ℤ larger a b) ↔ ((least ≤ℤ a) ⊎ (least ≤ℤ b))
Reaches-larger least a b = ground arith

max_from-Reaches :
    (least top : ℤ) (scores : List ℤ)
    → least ≤ℤ max_from top scores
    → (least ≤ℤ top) ⊎ Any (Reaches least) scores
unfolding max_from
max_from-Reaches least top [] h = inl h
max_from-Reaches least top (score ∷ scores) h =
    elim (max_from-Reaches least (larger top score) scores h) [
      | inl a ↦ elim ((Reaches-larger least top score).0 a) [ inl b ↦ inl b | inr b ↦ inr (inl b) ]
      | inr a ↦ inr (inr a)
    ]

Reaches-max_from :
    (least top : ℤ) (scores : List ℤ)
    → (least ≤ℤ top) ⊎ Any (Reaches least) scores
    → least ≤ℤ max_from top scores
unfolding max_from
Reaches-max_from least top [] (inl h) = h
Reaches-max_from least top [] (inr h) = elim h [ ]
Reaches-max_from least top (score ∷ scores) (inl h) =
    Reaches-max_from least (larger top score) scores
      (inl ((Reaches-larger least top score).1 (inl h)))
Reaches-max_from least top (score ∷ scores) (inr (inl h)) =
    Reaches-max_from least (larger top score) scores
      (inl ((Reaches-larger least top score).1 (inr h)))
Reaches-max_from least top (score ∷ scores) (inr (inr h)) =
    Reaches-max_from least (larger top score) scores (inr h)

top_of-Reaches :
    (least : ℤ) (scores : List ℤ)
    → ((has_scores scores && geb_ℤ (top_of scores) least) ≡ true) ↔ Any (Reaches least) scores
unfolding top_of
top_of-Reaches least [] = (λ h. cc, λ h. elim h [ ])
top_of-Reaches least (score ∷ scores) = (
  λ h. max_from-Reaches least score scores (ground arith),
  λ h. ground (arith, Reaches-max_from least score scores h),
)

-- Two elements of a list, at two places, that a predicate holds of.
abbrev pub Two : (ℤ → Type 0) → List ℤ → Type 0
Two P [] = ⊥
Two P (x ∷ xs) = (P x × Any P xs) ⊎ Two P xs

supporting_of-Any :
    (least : ℤ) (scores : List ℤ) → (1 ≤ supporting_of least scores) ↔ Any (Reaches least) scores
supporting_of-Any least [] = (λ h. omega arith, λ h. elim h [ ])
supporting_of-Any least (score ∷ scores) =
    ground (arith, (supporting_of-Any least scores).0, (supporting_of-Any least scores).1)

supporting_of-Two :
    (least : ℤ) (scores : List ℤ) → (2 ≤ supporting_of least scores) ↔ Two (Reaches least) scores
supporting_of-Two least [] = (λ h. omega arith, λ h. elim h [ ])
supporting_of-Two least (score ∷ scores) = (
  λ h. ground (arith, (supporting_of-Any least scores).0, (supporting_of-Two least scores).0),
  λ h. ground (arith, (supporting_of-Any least scores).1, (supporting_of-Two least scores).1),
)

module _ (two_places : ℤ → String) (min_evidence_score min_support_score : ℤ) where
  abbrev IsGrounded : List ℤ → Type 0
  IsGrounded scores =
      Any (Reaches min_evidence_score) scores × Two (Reaches min_support_score) scores

  measured_iff :
      (scores : List ℤ)
      → (measured min_evidence_score min_support_score scores ≡ true) ↔ IsGrounded scores
  unfolding measured
  measured_iff scores = (
    λ h. ground (
      arith,
      (top_of-Reaches min_evidence_score scores).0,
      (supporting_of-Two min_support_score scores).0,
    ),
    λ h. ground (
      arith,
      (top_of-Reaches min_evidence_score scores).1 h.0,
      (supporting_of-Two min_support_score scores).1 h.1,
    ),
  )

  -- The evidence gate lets a turn answer exactly when its write has been performed or some score is at
  -- least the evidence threshold and two scores, at two places, are at least the support threshold.
  pub evaluate-passed_iff :
      (scores : List ℤ) (grounded_by_write : Bool)
      → ((evaluate two_places min_evidence_score min_support_score scores grounded_by_write).passed
          ≡ true)
        ↔ ((grounded_by_write ≡ true)
            ⊎ (Any (λ score. min_evidence_score ≤ℤ score) scores
                × Two (λ score. min_support_score ≤ℤ score) scores))
  unfolding evaluate
  evaluate-passed_iff scores grounded_by_write =
      ground (arith, (measured_iff scores).0, (measured_iff scores).1)
