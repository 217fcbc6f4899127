-- ===== src/Guards/Citations/Real.antt =====
-- What a citation that survives the guardrails rests on (src/hrmosaic/agent/guardrails/g2.py, g3.py).
use quantic_mosaic.Prelude.{
  ◌≡◌, refl, sym, ap, ◌∙◌, inl, inr, Bool, true, false, not, ◌&&◌, Option, none, some, List, [],
  ◌∷◌, String, str_eq, eq_iff, contains, All, All-append, map, member, lookup, Bool-cases, if_both,
  if◌then◌else◌,
}
use mathlib.Core.Path.{subst}
use quantic_mosaic.Guards.{Block}
use quantic_mosaic.Guards.Citations.{
  normalise, Chunk, Displayed, Resolution, stands, drift, drift_of, is_quarantined, resolve_chunk,
  recover,
}
use quantic_mosaic.Guards.Citations.Cascade.{
  Outcome, is_empty, is_open, is_unsupported, resolve, citable, apply,
}
use quantic_mosaic.Guards.Citations.Cached.{verdict_of}
use quantic_mosaic.Guards.Citations.Resolved.{slip_to, final_slip, final, with_final, survive}
use quantic_mosaic.Guards.Citations.Reference.{surviving_blocks, apply-surviving}
use quantic_mosaic.Guards.Facts

-- What was displayed of a chunk is what the index holds.
pub record Matches (shown : Displayed) (real : Chunk) : Type 0 where
  pub same_doc_id : shown.doc_id ≡ real.doc_id
  pub same_doc_title : shown.doc_title ≡ real.doc_title
  pub same_heading_path : shown.heading_path ≡ real.heading_path
  pub same_section : shown.section ≡ real.section
  pub in_text : contains (normalise shown.snippet) (normalise real.text) ≡ true
  pub is_clean : shown.quarantined ≡ false

some_eq : {A : Type 0} {a b : A} → some a ≡ some b → a ≡ b
some_eq e = cc

false-true : false ≡ true → ⊥
false-true e = cc

next_test :
    (b : Bool) (reason : String) (rest : Option String)
    → (if not b then some reason else rest) ≡ none
    → (b ≡ true) × (rest ≡ none)
next_test true reason rest h = (refl, h)
next_test false reason rest h = cc

no_drift :
    (shown : Displayed) (real : Chunk)
    → drift shown real ≡ none
    → shown.quarantined ≡ false
    → Matches shown real
unfolding drift
no_drift shown real e q =
    let (a, e1) = next_test (str_eq shown.doc_id real.doc_id) _ _ e in
    let (b, e2) = next_test (str_eq shown.doc_title real.doc_title) _ _ e1 in
    let (c, e3) = next_test (str_eq shown.heading_path real.heading_path) _ _ e2 in
    let (d, e4) = next_test (str_eq shown.section real.section) _ _ e3 in
    let (f, e5) = next_test (contains (normalise shown.snippet) (normalise real.text)) _ _ e4 in
    record {
      same_doc_id = (eq_iff shown.doc_id real.doc_id).0 a;
      same_doc_title = (eq_iff shown.doc_title real.doc_title).0 b;
      same_heading_path = (eq_iff shown.heading_path real.heading_path).0 c;
      same_section = (eq_iff shown.section real.section).0 d;
      in_text = f;
      is_clean = q;
    }

-- What an id that resolves rests on: a chunk of the index, what was displayed of it, and the verdict
-- of the injection shield.
pub record IsReal (found : Option Chunk) (displayed : Option Displayed) (is_bad : Bool)
    : Type 0 where
  pub chunk : Chunk
  pub is_found : found ≡ some chunk
  pub is_allowed : is_bad ≡ false
  pub matches : (shown : Displayed) → displayed ≡ some shown → Matches shown chunk

stands-ok :
    (id : String) (chunk : Chunk) (displayed : Option Displayed)
    → (stands id chunk displayed (drift_of displayed chunk)).ok ≡ true
    → is_quarantined displayed ≡ false
    → (shown : Displayed) → displayed ≡ some shown
    → Matches shown chunk
stands-ok id chunk none h q shown e = cc
stands-ok id chunk (some d) h q shown e =
    subst (λ s. Matches s chunk) (some_eq e) (no_drift d chunk (not_rejected (drift d chunk) h) q)
  where
    not_rejected : (o : Option String) → (stands id chunk (some d) o).ok ≡ true → o ≡ none
    not_rejected none k = refl
    not_rejected (some reason) k = cc

resolve_chunk-ok :
    (id : String) (displayed : Option Displayed) (is_bad : Bool) (found : Option Chunk)
    → (resolve_chunk id displayed is_bad found).ok ≡ true
    → IsReal found displayed is_bad
unfolding resolve_chunk
resolve_chunk-ok id displayed is_bad none h = cc
resolve_chunk-ok id displayed true (some chunk) h = cc
resolve_chunk-ok id displayed false (some chunk) h = elim (Bool-cases (is_quarantined displayed)) [
  | inl q ↦ absurd (false-true (rw q at h))
  | inr q ↦ record {
    chunk = chunk;
    is_found = refl;
    is_allowed = refl;
    matches = stands-ok id chunk displayed (rw q at h) q;
  }
]

module _ (get_chunk : String → Option Chunk) (evidence : List (String × Displayed))
    (quarantined : List String) where
  -- A cited id that the reader may follow.
  abbrev pub Rests : String → Type 0
  Rests id = IsReal (get_chunk id) (lookup id evidence) (member id quarantined)

  verdict_of-ok :
      (id : String) → (verdict_of get_chunk evidence quarantined id).ok ≡ true → Rests id
  unfolding resolve
  verdict_of-ok id h =
      resolve_chunk-ok id (lookup id evidence) (member id quarantined) (get_chunk id) h

  abbrev FinalRests : String × Resolution → Type 0
  FinalRests (id, r) = r.ok ≡ true → Rests id

  slip_to-FinalRests :
      (b : Bool) (id candidate : String)
      → FinalRests (slip_to get_chunk evidence quarantined b id candidate)
  slip_to-FinalRests false id candidate = verdict_of-ok id
  slip_to-FinalRests true id candidate = verdict_of-ok candidate

  final_slip-FinalRests :
      (id : String) (o : Option String)
      → FinalRests (final_slip get_chunk evidence quarantined id o)
  final_slip-FinalRests id none = verdict_of-ok id
  final_slip-FinalRests id (some candidate) =
      slip_to-FinalRests (verdict_of get_chunk evidence quarantined candidate).ok id candidate

  final-FinalRests : (id : String) → FinalRests (final get_chunk evidence quarantined id)
  unfolding final
  final-FinalRests id =
      if_both FinalRests (is_open (verdict_of get_chunk evidence quarantined id)) _ _
        (final_slip-FinalRests id (recover id (citable get_chunk evidence quarantined)))
        (verdict_of-ok id)

  with_final-Rests :
      (id : String) (r : Resolution) (ids : List String)
      → FinalRests (id, r)
      → All Rests ids
      → All Rests (with_final get_chunk evidence quarantined (id, r) ids)
  with_final-Rests id r ids h k = elim (Bool-cases r.ok) [
    | inl e ↦
        rw e
          (if_both (All Rests) (member id ids) _ _ k (All-append Rests ids (id ∷ []) k (h e, tt)))
    | inr e ↦ rw e k
  ]

  survive-Rests :
      (cited ids : List String)
      → All Rests ids
      → All Rests (survive get_chunk evidence quarantined cited ids)
  unfolding survive
  survive-Rests [] ids h = h
  survive-Rests (c ∷ more) ids h =
      survive-Rests more
        (with_final get_chunk evidence quarantined (final get_chunk evidence quarantined c) ids)
        (with_final-Rests (final get_chunk evidence quarantined c).0
          (final get_chunk evidence quarantined c).1 ids (final-FinalRests c) h)

  -- A policy claim is cited, and every citation of a block rests on the index.
  abbrev pub IsSupported : Block → Type 0
  IsSupported block =
      (block.type ≡ "policy_fact" → is_empty block.citations ≡ false) × All Rests block.citations

  cited : (b c : Bool) → b ≡ true → (b && c) ≡ false → c ≡ false
  cited b c e h = rw e at h

  not_a_fact : ◌≡◌ {A = String} "recommendation" "policy_fact" → ⊥
  not_a_fact t = false-true ((eq_iff "recommendation" "policy_fact").1 t)

  relabel-IsSupported :
      (block : Block) → All Rests block.citations → IsSupported (Facts.relabel block)
  relabel-IsSupported block h = elim (Bool-cases (Facts.is_uncited_fact block)) [
    | inl e ↦ rw e (λ t. absurd (not_a_fact t), h)
    | inr e ↦ rw e (
      λ t. cited (str_eq block.type "policy_fact") _ ((eq_iff block.type "policy_fact").1 t) e,
      h,
    )
  ]

  surviving-IsSupported :
      (blocks : List Block)
      → All IsSupported (map Facts.relabel (surviving_blocks get_chunk evidence quarantined blocks))
  unfolding surviving_blocks
  surviving-IsSupported [] = tt
  surviving-IsSupported (block ∷ more) =
      let ids = survive get_chunk evidence quarantined block.citations [] in
      let rest = surviving-IsSupported more in
      if_both (λ bs. All IsSupported (map Facts.relabel bs)) (is_unsupported block ids) _ _ rest
        (
          relabel-IsSupported (record block { citations = ids })
              (survive-Rests block.citations [] tt),
          rest,
        )

  -- After the check of the citations and the relabelling of facts, every policy claim of an answer has a
  -- citation, and every citation of any block names a chunk that is in the index and that the injection
  -- shield did not quarantine; where the turn displayed that chunk, the document, the title, the heading
  -- path and the section shown are the ones of the index, and the snippet shown is in its text.
  pub facts-after-citations :
      (blocks : List Block) (o : Outcome)
      → apply get_chunk evidence quarantined blocks ≡ some o
      → All IsSupported (Facts.apply o.blocks).blocks
  facts-after-citations blocks o h =
      let (p, e, same, dropped, cs, refused) =
        apply-surviving get_chunk evidence quarantined blocks in
      let q : p ≡ o = some_eq (sym e ∙ h) in
      subst (λ bs. All IsSupported bs) (sym (Facts.apply-map o.blocks))
        (subst (λ bs. All IsSupported (map Facts.relabel bs)) (sym same ∙ ap (λ x. x.blocks) q)
          (surviving-IsSupported blocks))
