-- ===== src/Guards/Citations/Resolved.antt =====
-- The G2 cascade (src/hrmosaic/agent/guardrails/g2.py) on the citations of one block, against a
-- reference that remembers nothing.
use quantic_mosaic.Prelude.{
  ◌≡◌, refl, sym, ap, ◌∙◌, Bool, true, false, Option, none, some, List, [], ◌∷◌, String, All,
  All-map, All-append, member, if_both, if_pair, if◌then◌else◌,
}
use mathlib.Core.Path.{subst}
use quantic_mosaic.Guards.Citations.{Chunk, Displayed, Resolution, recover}
use quantic_mosaic.Guards.Citations.Cascade.{
  Cascade, is_open, add_new, citable, memo, slipped, try_slip, resolution_for, note, cite_all,
}
use quantic_mosaic.Guards.Citations.Cached.{
  verdict_of, IsCached, Holds, Grows, Grows-refl, Grows-trans, memo-Recalled, recover_of,
  citable-clean,
}

module _ (get_chunk : String → Option Chunk) (evidence : List (String × Displayed))
    (quarantined : List String) where
  abbrev pub verdict : String → Resolution
  verdict = verdict_of get_chunk evidence quarantined

  abbrev pub HoldsNow : List (String × Resolution) → String → Type 0
  HoldsNow = Holds get_chunk evidence quarantined

  abbrev pub GrowsTo : List (String × Resolution) → List (String × Resolution) → Type 0
  GrowsTo = Grows get_chunk evidence quarantined

  -- The id under which a citation resolves, and how: its own, or the evidence id it slipped from.
  abbrev pub slip_to : Bool → String → String → String × Resolution
  slip_to false id candidate = (id, verdict id)
  slip_to true id candidate = (candidate, verdict candidate)

  abbrev pub final_slip : String → Option String → String × Resolution
  final_slip id none = (id, verdict id)
  final_slip id (some candidate) = slip_to (verdict candidate).ok id candidate

  unfoldable pub final : String → String × Resolution
  final id =
      if is_open (verdict id)
      then final_slip id (recover id (citable get_chunk evidence quarantined))
      else (id, verdict id)

  -- An answer with the memory it leaves.
  abbrev Answers :
      String × Resolution → List (String × Resolution) → (String × Resolution) × Cascade → Type 0
  Answers expected known (out, t) =
      (out ≡ expected) × GrowsTo known t.resolutions × HoldsNow t.resolutions out.0

  slipped-Answers :
      (b : Bool) (id c : String) (r a : Resolution) (known : List (String × Resolution))
      (s : Cascade)
      → r ≡ verdict id
      → a ≡ verdict c
      → GrowsTo known s.resolutions
      → HoldsNow s.resolutions id
      → HoldsNow s.resolutions c
      → Answers (slip_to b id c) known (slipped b id r c a s)
  slipped-Answers false id c r a known s e f g h k = (ap (λ v. (id, v)) e, g, h)
  slipped-Answers true id c r a known s e f g h k = (ap (λ v. (c, v)) f, g, k)

  try_slip-Answers :
      (id : String) (r : Resolution) (o : Option String) (known : List (String × Resolution))
      (s : Cascade)
      → r ≡ verdict id
      → GrowsTo known s.resolutions
      → HoldsNow s.resolutions id
      → ((c : String) → o ≡ some c → member c quarantined ≡ false)
      → Answers (final_slip id o) known (try_slip get_chunk evidence quarantined id r o s)
  unfolding try_slip
  try_slip-Answers id r none known s e g h clean = (ap (λ v. (id, v)) e, g, h)
  try_slip-Answers id r (some c) known s e g h clean =
      let (f, k, l) =
        memo-Recalled get_chunk evidence quarantined s.resolutions c false (sym (clean c refl))
          g.cached in
      let (alternative, later) = memo get_chunk evidence quarantined c false s.resolutions in
      subst
        (λ b.
          Answers (slip_to b id c) known
            (slipped alternative.ok id r c alternative (record s { resolutions = later })))
        (ap (λ v. v.ok) f)
        (slipped-Answers alternative.ok id c r alternative known (record s { resolutions = later })
          e f (Grows-trans get_chunk evidence quarantined g k) (k.keeps id h) l)

  -- `resolution_for` answers what resolving afresh answers.
  resolution_for-Answers :
      (id : String) (s : Cascade)
      → IsCached get_chunk evidence quarantined s.resolutions
      → Answers (final id) s.resolutions (resolution_for get_chunk evidence quarantined id s)
  unfolding resolution_for final
  resolution_for-Answers id s h =
      let (e, g, k) =
        memo-Recalled get_chunk evidence quarantined s.resolutions id (member id quarantined) refl
          h in
      let (r, known) =
        memo get_chunk evidence quarantined id (member id quarantined) s.resolutions in
      let met = record s { resolutions = known } in
      let slips = recover id (citable get_chunk evidence quarantined) in
      let clean =
        recover_of (λ c. member c quarantined ≡ false) id
          (citable get_chunk evidence quarantined) in
      subst
        (λ b. Answers (if b then final_slip id slips else (id, verdict id)) s.resolutions (
          if is_open r
          then try_slip get_chunk evidence quarantined id r slips met
          else ((id, r), met)))
        (ap is_open e)
        (if_pair (λ x. Answers x s.resolutions) (is_open r) _ (id, verdict id) _ ((id, r), met)
          (try_slip-Answers id r slips s.resolutions met e g k
            (λ c o. clean c (citable-clean get_chunk evidence quarantined evidence) o))
          (ap (λ v. (id, v)) e, g, k))

  -- The ids that survive of a block's citations, each once, in order.
  abbrev pub with_final : String × Resolution → List String → List String
  with_final (id, r) ids = if r.ok then add_new id ids else ids

  unfoldable pub survive : List String → List String → List String
  unfolding final
  survive [] ids = ids
  survive (cited ∷ more) ids = survive more (with_final (final cited) ids)

  abbrev pub Cites : List String → List (String × Resolution) → List String × Cascade → Type 0
  Cites expected known (ids, t) =
      (ids ≡ expected) × GrowsTo known t.resolutions × All (HoldsNow t.resolutions) ids

  note-Cites :
      (r : Resolution) (id : String) (s : Cascade) (known : List (String × Resolution))
      (ids : List String)
      → GrowsTo known s.resolutions
      → HoldsNow s.resolutions id
      → All (HoldsNow s.resolutions) ids
      → Cites (with_final (id, r) ids) known (note ((id, r), s) ids)
  note-Cites r id s known ids g h k =
      if_pair (λ e. Cites e known) r.ok _ _ _ _
        (
          refl,
          g,
          if_both (All (HoldsNow s.resolutions)) (member id ids) _ _ k
              (All-append (HoldsNow s.resolutions) ids (id ∷ []) k (h, tt)),
        )
        (refl, g, k)

  pub cite_all-Cites :
      (cited ids : List String) (s : Cascade)
      → IsCached get_chunk evidence quarantined s.resolutions
      → All (HoldsNow s.resolutions) ids
      → Cites
          (survive cited ids)
          s.resolutions
          (cite_all get_chunk evidence quarantined cited ids s)
  unfolding cite_all survive
  cite_all-Cites [] ids s h k = (refl, Grows-refl get_chunk evidence quarantined s.resolutions h, k)
  cite_all-Cites (cited ∷ more) ids s h k =
      let step = resolution_for get_chunk evidence quarantined cited s in
      let (e, g, l) = resolution_for-Answers cited s h in
      let (f, m, n) =
        note-Cites step.0.1 step.0.0 step.1 s.resolutions ids g l (All-map ids g.keeps k) in
      let next = note step ids in
      let (o, p, q) = cite_all-Cites more next.0 next.1 m.cached n in
      (
        o ∙ ap (survive more) (f ∙ ap (λ v. with_final v ids) e),
        Grows-trans get_chunk evidence quarantined m p,
        q,
      )
