-- ===== src/Guards/Citations/Reference.antt =====
-- The G2 cascade (src/hrmosaic/agent/guardrails/g2.py) against a reference that remembers nothing: each
-- citation is resolved afresh.
use quantic_mosaic.Prelude.{
  ℕ, ◌+◌, ◌≡◌, refl, ap, ◌∙◌, Bool, true, false, not, ◌&&◌, Option, some, List, [], ◌∷◌, String,
  All, All-map, All-append, member, if_both, if◌then◌else◌,
}
use mathlib.Core.Path.{subst}
use quantic_mosaic.Guards.{Block}
use quantic_mosaic.Guards.Citations.{Chunk, Displayed, Citation, Resolution}
use quantic_mosaic.Guards.Citations.Cascade.{
  Cascade, Kept, Outcome, is_unsupported, all_ids, distinct, with_citation, joined, citations_of,
  has_any, outcome, cite_all, keep_blocks, apply,
}
use quantic_mosaic.Guards.Citations.Resolved.{survive, cite_all-Cites}
use quantic_mosaic.Guards.Citations.Cached.{
  verdict_of, IsCached, Holds, Grows, Grows-refl, Grows-trans,
}

module _ (get_chunk : String → Option Chunk) (evidence : List (String × Displayed))
    (quarantined : List String) where
  abbrev Held : List (String × Resolution) → String → Type 0
  Held = Holds get_chunk evidence quarantined

  abbrev Grown : List (String × Resolution) → List (String × Resolution) → Type 0
  Grown = Grows get_chunk evidence quarantined

  abbrev survivors : List String → List String → List String
  survivors = survive get_chunk evidence quarantined

  -- The blocks that are left, and how many are not.
  unfoldable pub surviving_blocks : List Block → List Block
  surviving_blocks [] = []
  surviving_blocks (block ∷ more) =
      let rest = surviving_blocks more in
      if is_unsupported block (survivors block.citations [])
      then rest
      else record block { citations = survivors block.citations [] } ∷ rest

  unfoldable pub lost_blocks : List Block → ℕ
  lost_blocks [] = 0
  lost_blocks (block ∷ more) =
      let rest = lost_blocks more in
      if is_unsupported block (survivors block.citations []) then rest + 1 else rest

  record Keeps (blocks : List Block) (lost : ℕ) (known : List (String × Resolution)) (kept : Kept)
      : Type 0 where
    same_blocks : kept.blocks ≡ blocks
    same_dropped : kept.dropped ≡ lost
    growth : Grown known kept.cascade.resolutions
    all_held : All (Held kept.cascade.resolutions) (all_ids kept.blocks)

  abbrev kept_after : Bool → Block → List String → Kept → Kept
  kept_after b block ids rest =
      if b
      then record rest { dropped = rest.dropped + 1 }
      else record rest { blocks = record block { citations = ids } ∷ rest.blocks }

  abbrev blocks_after : Bool → Block → List String → List Block → List Block
  blocks_after b block ids rest = if b then rest else record block { citations = ids } ∷ rest

  kept_after-Keeps :
      (b : Bool) (block : Block) (ids : List String) (rest : Kept) (blocks : List Block) (lost : ℕ)
      (known : List (String × Resolution))
      → Keeps blocks lost known rest
      → All (Held rest.cascade.resolutions) ids
      → Keeps
          (blocks_after b block ids blocks)
          (if b then lost + 1 else lost)
          known
          (kept_after b block ids rest)
  kept_after-Keeps true block ids rest blocks lost known h k = record {
    same_blocks = h.same_blocks;
    same_dropped = ap (λ n. n + 1) h.same_dropped;
    growth = h.growth;
    all_held = h.all_held;
  }
  kept_after-Keeps false block ids rest blocks lost known h k = record {
    same_blocks = ap (record block { citations = ids } ∷◌) h.same_blocks;
    same_dropped = h.same_dropped;
    growth = h.growth;
    all_held = All-append (Held rest.cascade.resolutions) ids (all_ids rest.blocks) k h.all_held;
  }

  Keeps-trans :
      {blocks : List Block} {lost : ℕ} {known later : List (String × Resolution)} {kept : Kept}
      → Grown known later
      → Keeps blocks lost later kept
      → Keeps blocks lost known kept
  Keeps-trans g h = record {
    same_blocks = h.same_blocks;
    same_dropped = h.same_dropped;
    growth = Grows-trans get_chunk evidence quarantined g h.growth;
    all_held = h.all_held;
  }

  keep_blocks-Keeps :
      (blocks : List Block) (s : Cascade)
      → IsCached get_chunk evidence quarantined s.resolutions
      → Keeps
          (surviving_blocks blocks)
          (lost_blocks blocks)
          s.resolutions
          (keep_blocks get_chunk evidence quarantined blocks s)
  unfolding keep_blocks surviving_blocks lost_blocks
  keep_blocks-Keeps [] s h = record {
    same_blocks = refl;
    same_dropped = refl;
    growth = Grows-refl get_chunk evidence quarantined s.resolutions h;
    all_held = tt;
  }
  keep_blocks-Keeps (block ∷ more) s h =
      let (e, g, k) = cite_all-Cites get_chunk evidence quarantined block.citations [] s h tt in
      let (ids, t) = cite_all get_chunk evidence quarantined block.citations [] s in
      let rest = keep_blocks get_chunk evidence quarantined more t in
      let r = keep_blocks-Keeps more t g.cached in
      subst
        (λ v.
          Keeps (blocks_after (is_unsupported block v) block v (surviving_blocks more))
            (if is_unsupported block v then lost_blocks more + 1 else lost_blocks more)
            s.resolutions (kept_after (is_unsupported block ids) block ids rest))
        e
        (kept_after-Keeps (is_unsupported block ids) block ids rest (surviving_blocks more)
          (lost_blocks more) s.resolutions (Keeps-trans g r) (All-map ids r.growth.keeps k))

  -- What the citations of the answer are, by id.
  unfoldable pub citations_by : List String → List Citation
  citations_by [] = []
  citations_by (id ∷ more) =
      with_citation (verdict_of get_chunk evidence quarantined id).citation (citations_by more)

  citations_of-holds :
      (known : List (String × Resolution)) (ids : List String)
      → All (Held known) ids
      → citations_of known ids ≡ some (citations_by ids)
  unfolding citations_of citations_by
  citations_of-holds known [] h = refl
  citations_of-holds known (id ∷ more) h =
      ap (λ o. joined o (citations_of known more)) h.0
      ∙ ap (joined (some (verdict_of get_chunk evidence quarantined id)))
          (citations_of-holds known more h.1)

  All-distinct : (Q : String → Type 0) (seen xs : List String) → All Q xs → All Q (distinct seen xs)
  All-distinct Q seen [] h = tt
  All-distinct Q seen (x ∷ xs) h =
      let rest = All-distinct Q (if member x seen then seen else x ∷ seen) xs h.1 in
      if_both (All Q) (member x seen) _ _ rest (h.0, rest)

  -- The check of the citations never fails, and what it keeps of an answer is what it would keep if it
  -- resolved each citation afresh: the same blocks with the same citations, the same number of blocks
  -- dropped, and the citations of the distinct ids that survivors, in the order in which they are met.
  pub apply-surviving :
      (blocks : List Block)
      → (o : Outcome) × (apply get_chunk evidence quarantined blocks ≡ some o)
        × (o.blocks ≡ surviving_blocks blocks)
        × (o.dropped_blocks ≡ lost_blocks blocks)
        × (o.citations ≡ citations_by (distinct [] (all_ids (surviving_blocks blocks))))
        × (o.refused ≡ (has_any blocks && not (has_any (surviving_blocks blocks))))
  unfolding apply
  apply-surviving blocks =
      let none_known : Cascade = record { resolutions = []; recovered = []; stripped = [] } in
      let kept = keep_blocks get_chunk evidence quarantined blocks none_known in
      let k = keep_blocks-Keeps blocks none_known (λ id r e. cc) in
      let ids = distinct [] (all_ids kept.blocks) in
      let cs =
        citations_of-holds kept.cascade.resolutions ids
          (All-distinct (Held kept.cascade.resolutions) [] (all_ids kept.blocks) k.all_held) in
      (
        record {
          blocks = kept.blocks;
          citations = citations_by ids;
          stripped = kept.cascade.stripped;
          dropped_blocks = kept.dropped;
          refused = has_any blocks && not (has_any kept.blocks);
          recovered = kept.cascade.recovered;
        },
        ap (outcome blocks kept) cs,
        k.same_blocks,
        k.same_dropped,
        ap (λ bs. citations_by (distinct [] (all_ids bs))) k.same_blocks,
        ap (λ bs. has_any blocks && not (has_any bs)) k.same_blocks,
      )
