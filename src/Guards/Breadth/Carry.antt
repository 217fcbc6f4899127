-- ===== src/Guards/Breadth/Carry.antt =====
-- What `carry_citations` promises (src/hrmosaic/agent/breadth.py): no citation of a block that is still
-- there is lost, and nothing but citations is added.
use quantic_mosaic.Prelude.{
  ℕ, ◌≡◌, refl, sym, ap, ◌∙◌, ◌⊎◌, inl, inr, Bool, true, false, not, ◌||◌, Option, none, some, List,
  [], ◌∷◌, String, keep, All, All-map, Any, member, Bool-cases, if_both, arith,
}
use mathlib.Core.Path.{subst}
use quantic_mosaic.Guards.{Block}
use quantic_mosaic.Guards.Citations.Cascade.{is_empty}
use quantic_mosaic.Guards.Breadth.{
  block_at, same_id, position_of, citations_at, append_citations, lost_at, carry_block, carry_from,
  carry_citations,
}
use quantic_mosaic.Guards.Breadth.Gains.{
  Sources, AllGain, AllGain-refl, AllGain-trans, change-AllGain, block_at-AllGain, block_at-change,
  position-at, member-append, member-keep, keep-member, some_eq,
}

empty_has_none : (xs : List String) (x : String) → is_empty xs ≡ true → member x xs ≡ true → ⊥
empty_has_none [] x e h = cc
empty_has_none (y ∷ ys) x e h = cc

-- What a block has not of some citations, it gains.
has_all :
    (b : Block) (citations : List String) (x : String)
    → member x citations ≡ true
    → (member x b.citations ≡ true)
      ⊎ (member x (keep (λ c. not (member c b.citations)) citations) ≡ true)
has_all b citations x h = elim (Bool-cases (member x b.citations)) [
  | inl e ↦ inl e
  | inr e ↦ inr (member-keep (λ c. not (member c b.citations)) x citations h (ap not e))
]

-- A block at this position that has these citations.
abbrev Served : ℕ → List String → List Block → Type 0
Served n citations kept =
    (c : Block) × (block_at n kept ≡ some c)
    × ((x : String) → member x citations ≡ true → member x c.citations ≡ true)

or_right : (b c : Bool) → c ≡ true → (b || c) ≡ true
or_right true c h = refl
or_right false c h = h

carry_block-Served :
    (n : ℕ) (citations : List String) (kept : List Block) (carried : List String) (b : Block)
    → block_at n kept ≡ some b
    → Served n citations (carry_block (some n) citations (kept, carried)).0
unfolding carry_block lost_at
carry_block-Served n citations kept carried b h =
    let lost = keep (λ c. not (member c (citations_at (block_at n kept)))) citations in
    let same : lost ≡ keep (λ c. not (member c b.citations)) citations =
      ap (λ o. keep (λ c. not (member c (citations_at o))) citations) h in
    elim (Bool-cases (is_empty lost)) [
      | inl e ↦ rw e (
        b,
        h,
        λ x k. elim (has_all b citations x k) [
          | inl l ↦ l
          | inr l ↦ absurd (empty_has_none lost x e (ap (member x) same ∙ l))
        ],
      )
      | inr e ↦ rw e (
        append_citations lost b,
        block_at-change n (append_citations lost) kept b h,
        λ x k. member-append x b.citations lost ∙ elim (has_all b citations x k) [
          | inl l ↦ ap (◌|| member x lost) l
          | inr l ↦ or_right (member x b.citations) (member x lost) (ap (member x) same ∙ l)
        ],
      )
    ]

carry_block-AllGain :
    (from : Sources) (n : ℕ) (citations : List String) (kept : List Block) (carried : List String)
    → ((b : Block) (x : String)
        → block_at n kept ≡ some b
        → member x citations ≡ true
        → from b.id x)
    → AllGain from kept (carry_block (some n) citations (kept, carried)).0
unfolding carry_block lost_at
carry_block-AllGain from n citations kept carried h =
    let lost = keep (λ c. not (member c (citations_at (block_at n kept)))) citations in
    if_both (λ (s : List Block × List String). AllGain from kept s.0) (is_empty lost) _ _
      (AllGain-refl from kept)
      (change-AllGain from n lost kept (λ b x k l.
        h b x k (keep-member (λ c. not (member c (citations_at (block_at n kept)))) x citations l)))

-- Where the citations of a carry come from: a reference block of the same identity.
abbrev pub FromReference : List Block → Sources
FromReference reference identity x =
    Any (λ r. (same_id r.id identity ≡ true) × (member x r.citations ≡ true)) reference

module _ (from : Sources) (blocks : List Block) where
  -- What a reference block may give.
  abbrev Gives : Block → Type 0
  Gives r =
      (identity : Option ℕ) (x : String)
      → same_id r.id identity ≡ true
      → member x r.citations ≡ true
      → from identity x

  abbrev IsServed : List Block → Block → Type 0
  IsServed kept r = (n : ℕ) → position_of r.id 0 blocks ≡ some n → Served n r.citations kept

  -- The block that a reference block finds, in the state of the carry.
  found :
      (r : Block) (kept : List Block) (n : ℕ)
      → AllGain from blocks kept
      → position_of r.id 0 blocks ≡ some n
      → (c : Block) × (block_at n kept ≡ some c) × (same_id r.id c.id ≡ true)
  found r kept n g e =
      let (k, b, f, at, same) = position-at r.id 0 blocks n e in
      let (c, at', gain) = block_at-AllGain from k blocks kept b g at in
      let i : n ≡ k = omega arith in
      (c, ap (λ m. block_at m kept) i ∙ at', ap (same_id r.id) gain.same_id ∙ same)

  one-AllGain :
      (r : Block) (kept : List Block) (carried : List String) (o : Option ℕ)
      → AllGain from blocks kept
      → Gives r
      → position_of r.id 0 blocks ≡ o
      → AllGain from kept (carry_block o r.citations (kept, carried)).0
  unfolding carry_block
  one-AllGain r kept carried none g h e = AllGain-refl from kept
  one-AllGain r kept carried (some n) g h e =
      let (c, at, same) = found r kept n g e in
      carry_block-AllGain from n r.citations kept carried (λ b x f l.
        h b.id x (ap (λ (d : Block). same_id r.id d.id) (some_eq (sym f ∙ at)) ∙ same) l)

  one-Served :
      (r : Block) (kept : List Block) (carried : List String) (n : ℕ)
      → AllGain from blocks kept
      → position_of r.id 0 blocks ≡ some n
      → Served n r.citations (carry_block (position_of r.id 0 blocks) r.citations (kept, carried)).0
  one-Served r kept carried n g e =
      let (c, at, same) = found r kept n g e in
      subst (λ o. Served n r.citations (carry_block o r.citations (kept, carried)).0) (sym e)
        (carry_block-Served n r.citations kept carried c at)

  Served-AllGain :
      (n : ℕ) (citations : List String) (kept later : List Block)
      → AllGain from kept later
      → Served n citations kept
      → Served n citations later
  Served-AllGain n citations kept later g (c, at, all) =
      let (d, at', gain) = block_at-AllGain from n kept later c g at in
      (d, at', λ x h. gain.kept x (all x h))

  carry_from-IsServed :
      (reference kept : List Block) (carried : List String)
      → AllGain from blocks kept
      → All Gives reference
      → let result = (carry_from blocks reference (kept, carried)).0 in
        AllGain from kept result × All (IsServed result) reference
  unfolding carry_from
  carry_from-IsServed [] kept carried g h = (AllGain-refl from kept, tt)
  carry_from-IsServed (r ∷ rs) kept carried g h =
      let next = carry_block (position_of r.id 0 blocks) r.citations (kept, carried) in
      let gain = one-AllGain r kept carried (position_of r.id 0 blocks) g h.0 refl in
      let (later, served) =
        carry_from-IsServed rs next.0 next.1 (AllGain-trans from blocks kept next.0 g gain) h.1 in
      (
        AllGain-trans from kept next.0 (carry_from blocks rs next).0 gain later,
        (
          λ n e.
              Served-AllGain n r.citations next.0 (carry_from blocks rs next).0 later
                (one-Served r kept carried n g e),
          served,
        ),
      )

All-Gives : (reference blocks : List Block) → All (Gives (FromReference reference) blocks) reference
All-Gives [] blocks = tt
All-Gives (r ∷ rs) blocks = (
  λ identity x s m. inl (s, m),
  All-map rs (λ r' g identity x s m. inr (g identity x s m)) (All-Gives rs blocks),
)

-- `carry_citations` drops no citation of a block that is still there: every citation of a reference block
-- is in the result on the last block of the same identity, if there is one. And it does nothing else:
-- block by block, the result has the type, the text and the identity of the blocks given and all their
-- citations, and each other citation is one of a reference block of the same identity.
pub carry_citations-IsServed :
    (reference blocks : List Block)
    → let kept = (carry_citations reference blocks).0 in
      AllGain (FromReference reference) blocks kept
      × All
          (λ r.
            (n : ℕ)
            → position_of r.id 0 blocks ≡ some n
            → (c : Block) × (block_at n kept ≡ some c)
              × ((x : String) → member x r.citations ≡ true → member x c.citations ≡ true))
          reference
unfolding carry_citations
carry_citations-IsServed reference blocks =
    carry_from-IsServed (FromReference reference) blocks reference blocks []
      (AllGain-refl (FromReference reference) blocks) (All-Gives reference blocks)
