-- ===== src/Guards/Breadth/Gains.antt =====
-- Blocks that gain citations, and the positions of blocks (src/hrmosaic/agent/breadth.py).
use quantic_mosaic.Prelude.{
  ℕ, zero, suc, ◌+◌, ◌≡◌, refl, sym, ap, ◌∙◌, ◌⊎◌, inl, inr, Bool, true, false, ◌||◌, Option, none,
  some, List, [], ◌∷◌, ◌++◌, String, str_eq, eq_iff, keep, member, Bool-cases, Option-cases,
  if_both, arith,
}
use mathlib.Core.Path.{subst}
use quantic_mosaic.Guards.{Block}
use quantic_mosaic.Guards.Breadth.{block_at, change_at, same_id, position_of, append_citations}

pub member-append :
    (c : String) (xs ys : List String) → member c (xs ++ ys) ≡ (member c xs || member c ys)
member-append c [] ys = refl
member-append c (x ∷ xs) ys = ground (member-append c xs ys, arith)

or_true : (b : Bool) → (b || true) ≡ true
or_true true = refl
or_true false = refl

pub in_rest : {b c : Bool} → b ≡ false → (b || c) ≡ true → c ≡ true
in_rest e h = rw e at h

pub member-keep :
    (p : String → Bool) (c : String) (xs : List String)
    → member c xs ≡ true
    → p c ≡ true
    → member c (keep p xs) ≡ true
member-keep p c [] h k = cc
member-keep p c (x ∷ xs) h k = elim (Bool-cases (str_eq c x)) [
  | inl e ↦ rw (sym (ap p ((eq_iff c x).0 e)) ∙ k) (ap (◌|| member c (keep p xs)) e)
  | inr e ↦
      if_both (λ ys. member c ys ≡ true) (p x) _ _
        (ap (str_eq c x ||◌) (member-keep p c xs (in_rest e h) k) ∙ or_true (str_eq c x))
        (member-keep p c xs (in_rest e h) k)
]

pub some_eq : {A : Type 0} {a b : A} → some a ≡ some b → a ≡ b
some_eq e = cc

pub keep-member :
    (p : String → Bool) (c : String) (xs : List String)
    → member c (keep p xs) ≡ true
    → member c xs ≡ true
keep-member p c [] h = h
keep-member p c (x ∷ xs) h = elim (Bool-cases (p x)) [
  | inl e ↦ elim (Bool-cases (str_eq c x)) [
    | inl f ↦ ap (◌|| member c xs) f
    | inr f ↦
        ap (str_eq c x ||◌) (keep-member p c xs (in_rest f (rw e at h))) ∙ or_true (str_eq c x)
  ]
  | inr e ↦ ap (str_eq c x ||◌) (keep-member p c xs (rw e at h)) ∙ or_true (str_eq c x)
]

pub or_cases : (b c : Bool) → (b || c) ≡ true → (b ≡ true) ⊎ (c ≡ true)
or_cases true c h = inl refl
or_cases false c h = inr h

-- Where a citation may come from, by the identity of the block that gains it.
abbrev pub Sources : Type 1
Sources = Option ℕ → String → Type 0

-- A block with more citations, from these sources, and otherwise the same.
pub record Gains (from : Sources) (b c : Block) : Type 0 where
  pub same_type : c.type ≡ b.type
  pub same_text : c.text ≡ b.text
  pub same_id : c.id ≡ b.id
  pub kept : (x : String) → member x b.citations ≡ true → member x c.citations ≡ true
  pub only :
      (x : String) → member x c.citations ≡ true → (member x b.citations ≡ true) ⊎ from b.id x

unfoldable pub AllGain : Sources → List Block → List Block → Type 0
AllGain from [] [] = Unit
AllGain from [] (c ∷ cs) = ⊥
AllGain from (b ∷ bs) [] = ⊥
AllGain from (b ∷ bs) (c ∷ cs) = Gains from b c × AllGain from bs cs

module _ (from : Sources) where
  pub Gains-refl : (b : Block) → Gains from b b
  Gains-refl b = record {
    same_type = refl;
    same_text = refl;
    same_id = refl;
    kept = λ x h. h;
    only = λ x h. inl h;
  }

  Gains-trans : {b c d : Block} → Gains from b c → Gains from c d → Gains from b d
  Gains-trans {b} g h = record {
    same_type = h.same_type ∙ g.same_type;
    same_text = h.same_text ∙ g.same_text;
    same_id = h.same_id ∙ g.same_id;
    kept = λ x k. h.kept x (g.kept x k);
    only = λ x k. elim (h.only x k) [
      | inl l ↦ g.only x l
      | inr l ↦ inr (subst (λ i. from i x) g.same_id l)
    ];
  }

  pub AllGain-refl : (bs : List Block) → AllGain from bs bs
  unfolding AllGain
  AllGain-refl [] = tt
  AllGain-refl (b ∷ bs) = (Gains-refl b, AllGain-refl bs)

  pub AllGain-trans :
      (bs cs ds : List Block) → AllGain from bs cs → AllGain from cs ds → AllGain from bs ds
  unfolding AllGain
  AllGain-trans [] [] [] g h = tt
  AllGain-trans [] [] (d ∷ ds) g h = h
  AllGain-trans [] (c ∷ cs) ds g h = absurd g
  AllGain-trans (b ∷ bs) [] ds g h = absurd g
  AllGain-trans (b ∷ bs) (c ∷ cs) [] g h = h
  AllGain-trans (b ∷ bs) (c ∷ cs) (d ∷ ds) g h =
      (Gains-trans g.0 h.0, AllGain-trans bs cs ds g.1 h.1)

  append-Gains :
      (extra : List String) (b : Block)
      → ((x : String) → member x extra ≡ true → from b.id x)
      → Gains from b (append_citations extra b)
  append-Gains extra b h = record {
    same_type = refl;
    same_text = refl;
    same_id = refl;
    kept = λ x k. member-append x b.citations extra ∙ ap (◌|| member x extra) k;
    only = λ x k.
        elim (or_cases (member x b.citations) (member x extra)
          (sym (member-append x b.citations extra) ∙ k)) [ inl l ↦ inl l | inr l ↦ inr (h x l) ];
  }

  pub change-AllGain :
      (n : ℕ) (extra : List String) (bs : List Block)
      → ((b : Block) (x : String) → block_at n bs ≡ some b → member x extra ≡ true → from b.id x)
      → AllGain from bs (change_at n (append_citations extra) bs)
  unfolding AllGain change_at block_at
  change-AllGain n extra [] h = tt
  change-AllGain zero extra (b ∷ bs) h =
      (append-Gains extra b (λ x k. h b x refl k), AllGain-refl bs)
  change-AllGain (suc n) extra (b ∷ bs) h = (Gains-refl b, change-AllGain n extra bs h)

  pub block_at-AllGain :
      (n : ℕ) (bs cs : List Block) (b : Block)
      → AllGain from bs cs
      → block_at n bs ≡ some b
      → (c : Block) × (block_at n cs ≡ some c) × Gains from b c
  unfolding AllGain block_at
  block_at-AllGain n [] cs b g h = cc
  block_at-AllGain n (x ∷ bs) [] b g h = absurd g
  block_at-AllGain zero (x ∷ bs) (c ∷ cs) b g h =
      let e : x ≡ b = some_eq h in (c, refl, subst (λ y. Gains from y c) e g.0)
  block_at-AllGain (suc n) (x ∷ bs) (c ∷ cs) b g h = block_at-AllGain n bs cs b g.1 h

pub block_at-change :
    (n : ℕ) (f : Block → Block) (bs : List Block) (b : Block)
    → block_at n bs ≡ some b
    → block_at n (change_at n f bs) ≡ some (f b)
unfolding block_at change_at
block_at-change n f [] b h = cc
block_at-change zero f (x ∷ bs) b h = ap f_of h
  where
    f_of : Option Block → Option Block
    f_of none = none
    f_of (some y) = some (f y)
block_at-change (suc n) f (x ∷ bs) b h = block_at-change n f bs b h

here : {index n : ℕ} → some index ≡ some n → n ≡ index + 0
here {index} {n} h = let e : index ≡ n = some_eq h in omega arith

nowhere : {n : ℕ} → ◌≡◌ {A = Option ℕ} none (some n) → ⊥
nowhere h = cc

-- The position of an identity holds a block of that identity.
pub position-at :
    (identity : Option ℕ) (index : ℕ) (bs : List Block) (n : ℕ)
    → position_of identity index bs ≡ some n
    → (k : ℕ) × (b : Block) × (n ≡ index + k)
      × (block_at k bs ≡ some b)
      × (same_id identity b.id ≡ true)
unfolding position_of block_at
position-at identity index [] n h = cc
position-at identity index (x ∷ bs) n h =
    elim (Option-cases (position_of identity (index + 1) bs)) [
      | inl e ↦ elim (Bool-cases (same_id identity x.id)) [
        | inl s ↦ (0, x, here (rw (e, s) at h), refl, s)
        | inr s ↦ absurd (nowhere (rw (e, s) at h))
      ]
      | inr (m, e) ↦
          let (k, b, f, g, s) = position-at identity (index + 1) bs n (e ∙ rw e at h) in
          (suc k, b, omega arith, g, s)
    ]
