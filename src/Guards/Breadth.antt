-- ===== src/Guards/Breadth.antt =====
-- The breadth of an answer over its evidence (src/hrmosaic/agent/breadth.py). The key of a claim is an
-- argument, since its words are the regular-expression engine's.
pub mod Gains
pub mod Carry
use quantic_mosaic.Prelude.{
  ℕ, zero, suc, ◌+◌, ◌-◌, min, Bool, true, false, not, ◌&&◌, ◌||◌, Option, none, some, List, [],
  ◌∷◌, ◌++◌, String, str_eq, length, keep, map, member, lookup, ltb, ◌==◌, if◌then◌else◌,
}
use quantic_mosaic.Guards.{Block}
use quantic_mosaic.Guards.Citations.Cascade.{add_new, all_ids, distinct, has_any, is_empty}

pub record Chunk : Type 0 where
  pub chunk_id : String
  pub doc_id : String
  pub doc_title : String
  pub quarantined : Bool

pub applies : Bool → Option String → Bool
applies multi_doc none = multi_doc
applies multi_doc (some workflow) = true

abbrev pub citable : List Chunk → List Chunk
citable chunks = keep (λ chunk. not chunk.quarantined) chunks

-- `documents[chunk_id]`: a later chunk of an id takes the place of an earlier one.
unfoldable pub document_of : String → List Chunk → Option String
document_of chunk_id [] = none
document_of chunk_id (chunk ∷ more) = later (document_of chunk_id more)
  where
    later : Option String → Option String
    later none = if str_eq chunk.chunk_id chunk_id then some chunk.doc_id else none
    later (some doc_id) = some doc_id

abbrev with_document : Option String → List String → List String
with_document none docs = docs
with_document (some doc_id) docs = doc_id ∷ docs

documents_of : List String → List Chunk → List String
unfolding document_of
documents_of [] chunks = []
documents_of (chunk_id ∷ more) chunks =
    with_document (document_of chunk_id chunks) (documents_of more chunks)

-- The set, as its distinct elements.
unfoldable pub cited_documents : List Block → List Chunk → List String
unfolding documents_of
cited_documents blocks chunks = distinct [] (documents_of (all_ids blocks) (citable chunks))

missing_from : List String → List String → List Chunk → List String
missing_from cited missing [] = missing
missing_from cited missing (chunk ∷ more) =
    missing_from cited
      (if member chunk.doc_id cited || member chunk.doc_id missing
        then missing
        else missing ++ chunk.doc_id ∷ [])
      more

unfoldable pub uncited_documents : List Block → List Chunk → List String
unfolding cited_documents missing_from
uncited_documents blocks chunks = missing_from (cited_documents blocks chunks) [] (citable chunks)

unfoldable pub distinct_docs_shortfall : List Block → List Chunk → ℕ → ℕ
unfolding cited_documents
distinct_docs_shortfall blocks chunks minimum =
    let available = length (distinct [] (map (λ chunk. chunk.doc_id) (citable chunks))) in
    min minimum available - length (cited_documents blocks chunks)

unfoldable pub accepted : List Block → List Block → List Chunk → ℕ → Bool → Bool
unfolding cited_documents
accepted before after chunks dropped_blocks refused =
    if refused || (ltb 0 dropped_blocks || ltb (length after) (length before))
    then false
    else ltb (length (cited_documents before chunks)) (length (cited_documents after chunks))

-- The block at a position, and another in its place.
unfoldable pub block_at : ℕ → List Block → Option Block
block_at n [] = none
block_at zero (b ∷ bs) = some b
block_at (suc n) (b ∷ bs) = block_at n bs

unfoldable pub change_at : ℕ → (Block → Block) → List Block → List Block
change_at n f [] = []
change_at zero f (b ∷ bs) = f b ∷ bs
change_at (suc n) f (b ∷ bs) = b ∷ change_at n f bs

abbrev pub join_citations : List String → Block → Block
join_citations extra b = record b { citations = fold_new extra b.citations }
  where
    fold_new : List String → List String → List String
    fold_new [] cs = cs
    fold_new (c ∷ more) cs = fold_new more (add_new c cs)

-- What `merge` keeps, by the positions of the claims in the blocks kept.
pub record Merging : Type 0 where
  pub seen : List (String × ℕ)
  pub kept : List Block
  pub merged : List ℕ

unfoldable pub merge_claim : Option ℕ → String → ℕ → Block → Merging → Merging
unfolding change_at
merge_claim none key index block m = record m {
  seen = (key, length m.kept) ∷ m.seen;
  kept = m.kept ++ block ∷ [];
}
merge_claim (some target) key index block m = record m {
  kept = change_at target (join_citations block.citations) m.kept;
  merged = m.merged ++ index ∷ [];
}

module _ (claim_key : String → String) where
  unfoldable pub merge_block : ℕ → Block → Merging → Merging
  unfolding merge_claim
  merge_block index block m =
      let key = claim_key block.text in
      if not (str_eq block.type "policy_fact")
      then record m { kept = m.kept ++ block ∷ [] }
      else merge_claim (lookup key m.seen) key index block m

  unfoldable pub merge_from : ℕ → List Block → Merging → Merging
  unfolding merge_block
  merge_from index [] m = m
  merge_from index (block ∷ more) m = merge_from (index + 1) more (merge_block index block m)

  unfoldable pub merge : List Block → List Block × List ℕ
  unfolding merge_from
  merge blocks =
      let m = merge_from 0 blocks (record { seen = []; kept = []; merged = [] }) in
      (m.kept, m.merged)

abbrev pub same_id : Option ℕ → Option ℕ → Bool
same_id (some i) (some j) = i == j
same_id _ _ = false

abbrev pub or_here : Bool → ℕ → Option ℕ → Option ℕ
or_here same at none = if same then some at else none
or_here same at (some found) = some found

-- `surviving.get(identity)`: the last position of the block of this identity, from `index` on.
unfoldable pub position_of : Option ℕ → ℕ → List Block → Option ℕ
position_of identity index [] = none
position_of identity index (b ∷ bs) =
    or_here (same_id identity b.id) index (position_of identity (index + 1) bs)

abbrev pub citations_at : Option Block → List String
citations_at none = []
citations_at (some b) = b.citations

abbrev pub append_citations : List String → Block → Block
append_citations lost b = record b { citations = b.citations ++ lost }

-- The citations of a reference block that the block at its position has not.
unfoldable pub lost_at : ℕ → List Block → List String → List String
unfolding block_at
lost_at target kept citations =
    keep (λ c. not (member c (citations_at (block_at target kept)))) citations

unfoldable pub carry_block :
    Option ℕ → List String → List Block × List String → List Block × List String
unfolding change_at lost_at
carry_block none citations (kept, carried) = (kept, carried)
carry_block (some target) citations (kept, carried) =
    let lost = lost_at target kept citations in
    if is_empty lost
    then (kept, carried)
    else (change_at target (append_citations lost) kept, carried ++ lost)

unfoldable pub carry_from :
    List Block → List Block → List Block × List String → List Block × List String
unfolding carry_block position_of
carry_from blocks [] state = state
carry_from blocks (r ∷ rs) state =
    carry_from blocks rs (carry_block (position_of r.id 0 blocks) r.citations state)

-- `carry_citations`, of the reference and the blocks.
unfoldable pub carry_citations : List Block → List Block → List Block × List String
unfolding carry_from
carry_citations reference blocks = carry_from blocks reference (blocks, [])
