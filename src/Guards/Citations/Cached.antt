-- ===== src/Guards/Citations/Cached.antt =====
-- The memory of the G2 cascade (src/hrmosaic/agent/guardrails/g2.py) holds for each id what `resolve`
-- says of it now.
use quantic_mosaic.Prelude.{
  ◌≡◌, refl, sym, ap, ◌∙◌, inl, inr, Bool, true, false, Option, none, some, List, [], ◌∷◌, String,
  str_eq, eq_iff, eq_refl, keep, All, member, lookup, insert, lookup-insert, Bool-cases, arith,
  if◌then◌else◌,
}
use mathlib.Core.Path.{subst}
use quantic_mosaic.Guards.Citations.{Chunk, Displayed, Resolution, recover, sole, is_slip}
use quantic_mosaic.Guards.Citations.Cascade.{resolve, citable_in, recall, memo}

All-keep_list :
    (Q : String → Type 0) (p : String → Bool) (xs : List String) → All Q xs → All Q (keep p xs)
All-keep_list Q p [] h = tt
All-keep_list Q p (x ∷ xs) h = elim (Bool-cases (p x)) [
  | inl e ↦ rw e (h.0, All-keep_list Q p xs h.1)
  | inr e ↦ rw e (All-keep_list Q p xs h.1)
]

sole_of : (Q : String → Type 0) (xs : List String) (c : String) → All Q xs → sole xs ≡ some c → Q c
sole_of Q [] c h e = cc
sole_of Q (x ∷ []) c h e = let e' : x ≡ c = cc in subst Q e' h.0
sole_of Q (x ∷ y ∷ rest) c h e = cc

some_eq : {A : Type 0} {a b : A} → some a ≡ some b → a ≡ b
some_eq e = cc

some_of_if :
    {A : Type 0} (b : Bool) (o : Option A) {c : A} → (if b then none else o) ≡ some c → o ≡ some c
some_of_if true o h = cc
some_of_if false o h = h

-- A slip is read as one of the candidates.
pub recover_of :
    (Q : String → Type 0) (id : String) (candidates : List String) (c : String)
    → All Q candidates
    → recover id candidates ≡ some c
    → Q c
unfolding recover
recover_of Q id candidates c h e =
    sole_of Q (keep (is_slip id) candidates) c (All-keep_list Q (is_slip id) candidates h)
      (some_of_if _ (sole (keep (is_slip id) candidates)) e)

module _ (get_chunk : String → Option Chunk) (evidence : List (String × Displayed))
    (quarantined : List String) where
  -- What the rule says of one id, with nothing remembered.
  abbrev pub verdict_of : String → Resolution
  verdict_of id =
      resolve get_chunk evidence quarantined id (lookup id evidence) (member id quarantined)

  abbrev pub IsCached : List (String × Resolution) → Type 0
  IsCached known = (id : String) (r : Resolution) → lookup id known ≡ some r → r ≡ verdict_of id

  abbrev pub Holds : List (String × Resolution) → String → Type 0
  Holds known id = lookup id known ≡ some (verdict_of id)

  -- What a step leaves in the memory: right answers, all that was there, and those of one id.
  pub record Grows (known : List (String × Resolution)) (later : List (String × Resolution))
      : Type 0 where
    pub cached : IsCached later
    pub keeps : (id : String) → Holds known id → Holds later id

  abbrev entered : String → String → List (String × Resolution) → Option Resolution
  entered id x known = if str_eq id x then some (verdict_of id) else lookup x known

  entered_right :
      (known : List (String × Resolution)) (id x : String) (r : Resolution)
      → IsCached known
      → entered id x known ≡ some r
      → r ≡ verdict_of x
  entered_right known id x r h e = elim (Bool-cases (str_eq id x)) [
    | inl s ↦
        let f : some (verdict_of id) ≡ some r = rw s at e in
        let i : verdict_of id ≡ r = some_eq f in sym i ∙ ap verdict_of ((eq_iff id x).0 s)
    | inr s ↦ h x r (rw s at e)
  ]

  entered_keeps :
      (known : List (String × Resolution)) (id x : String)
      → Holds known x
      → entered id x known ≡ some (verdict_of x)
  entered_keeps known id x k = elim (Bool-cases (str_eq id x)) [
    | inl s ↦ rw s (ap (λ y. some (verdict_of y)) ((eq_iff id x).0 s))
    | inr s ↦ rw s k
  ]

  Grows-insert :
      (known : List (String × Resolution)) (id : String)
      → IsCached known
      → Grows known (insert id (verdict_of id) known)
  Grows-insert known id h = record {
    cached =
        λ x r e. entered_right known id x r h (sym (lookup-insert id x (verdict_of id) known) ∙ e);
    keeps = λ x k. lookup-insert id x (verdict_of id) known ∙ entered_keeps known id x k;
  }

  Holds-insert :
      (known : List (String × Resolution)) (id : String)
      → Holds (insert id (verdict_of id) known) id
  Holds-insert known id =
      lookup-insert id id (verdict_of id) known
      ∙ ap (λ b. if b then some (verdict_of id) else lookup id known) (eq_refl id)

  pub citable-clean :
      (shown : List (String × Displayed))
      → All (λ c. member c quarantined ≡ false) (citable_in get_chunk evidence quarantined shown)
  unfolding citable_in
  citable-clean [] = tt
  citable-clean ((candidate, d) ∷ more) = ground (arith, citable-clean more)

  pub Grows-refl : (known : List (String × Resolution)) → IsCached known → Grows known known
  Grows-refl known h = record { cached = h; keeps = λ id k. k }

  pub Grows-trans : {a b c : List (String × Resolution)} → Grows a b → Grows b c → Grows a c
  Grows-trans g h = record { cached = h.cached; keeps = λ id k. h.keeps id (g.keeps id k) }

  abbrev pub Recalled :
      String → List (String × Resolution) → Resolution × List (String × Resolution) → Type 0
  Recalled id known (r, later) = (r ≡ verdict_of id) × Grows known later × Holds later id

  -- A recall answers with what the rule says, and remembers it.
  pub memo-Recalled :
      (known : List (String × Resolution)) (id : String) (is_bad : Bool)
      → is_bad ≡ member id quarantined
      → IsCached known
      → Recalled id known (memo get_chunk evidence quarantined id is_bad known)
  unfolding recall
  memo-Recalled known id is_bad b h = by_lookup (lookup id known) refl
    where
      by_lookup :
          (o : Option Resolution)
          → lookup id known ≡ o
          → Recalled id known (recall get_chunk evidence quarantined id is_bad known o)
      by_lookup none e = rw b (refl, Grows-insert known id h, Holds-insert known id)
      by_lookup (some r) e = (h id r e, Grows-refl known h, e ∙ ap some (h id r e))
