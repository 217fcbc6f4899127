-- ===== src/Rules/Evaluate/Rows.antt =====
-- The loop of `evaluate` over the requirements (src/hrmosaic/mcpserver/rules.py) as a relation.
use quantic_mosaic.Prelude.{
  ◌≡◌, ◌⊎◌, inl, inr, Bool, true, false, some, List, [], ◌∷◌, String, str_eq, eq_iff, lookup,
  insert, lookup-insert, All, Any, All-map, before, if◌then◌else◌, Bool-cases,
}
use mathlib.Core.Path.{subst}
use quantic_mosaic.Rules.Data.{Context, Requirement, Decision, Status, Result, ok}
use quantic_mosaic.Rules.Operators.{guard_holds}
use quantic_mosaic.Rules.Engine.{evaluate_requirement}
use quantic_mosaic.Rules.Engine.Requirements.{
  >>=-eq-ok, IsCoherent, evaluate_requirement-IsCoherent,
}
use quantic_mosaic.Rules.Evaluate.{Decided, decide, decide_round}

-- The runs of the loop over the requirements, one constructor for each way that a round goes.
pub data Decides (c : Context) (known : List String)
    : List Requirement → Decided → List Decision → Decided → Type 0 where
  done : {before after : Decided} → before ≡ after → Decides c known [] before [] after
  skipped :
      {r : Requirement} {rs : List Requirement} {before after : Decided} {ds : List Decision}
      → guard_holds r.applies_when c before known ≡ ok false
      → Decides c known rs before ds after
      → Decides c known (r ∷ rs) before ds after
  taken :
      {r : Requirement} {rs : List Requirement} {before after : Decided} {d : Decision}
      {ds : List Decision}
      → guard_holds r.applies_when c before known ≡ ok true
      → evaluate_requirement r c ≡ ok d
      → Decides c known rs (insert d.entry.id d.entry.status before) ds after
      → Decides c known (r ∷ rs) before (d ∷ ds) after

ok_fst : {A B : Type 0} {x y : A × B} → Result.ok x ≡ ok y → x ≡ y
ok_fst h = cc

value_of : {s t : Status} → some s ≡ some t → s ≡ t
value_of h = cc

module _ (c : Context) (known : List String) where
  round-Decides :
      (r : Requirement) (rs : List Requirement) (decided : Decided) (applies : Bool)
      (ds : List Decision) (after_all : Decided)
      → guard_holds r.applies_when c decided known ≡ ok applies
      → decide_round (λ x. decide rs c known x) r c decided applies ≡ ok (ds, after_all)
      → ((x : Decided) (es : List Decision) (y : Decided)
          → decide rs c known x ≡ ok (es, y)
          → Decides c known rs x es y)
      → Decides c known (r ∷ rs) decided ds after_all
  unfolding decide_round
  round-Decides r rs decided false ds after_all g h ih = skipped g (ih decided ds after_all h)
  round-Decides r rs decided true ds after_all g h ih =
      let (d, p, h') = >>=-eq-ok (evaluate_requirement r c) _ h in
      let ((later, last), q, e) =
        >>=-eq-ok (decide rs c known (insert d.entry.id d.entry.status decided)) _ h' in
      subst (λ x. Decides c known (r ∷ rs) decided x.0 x.1) (ok_fst e)
        (taken g p (ih _ later last q))

  pub decide-Decides :
      (rs : List Requirement) (decided : Decided) (ds : List Decision) (after_all : Decided)
      → decide rs c known decided ≡ ok (ds, after_all)
      → Decides c known rs decided ds after_all
  unfolding decide
  decide-Decides [] decided ds after_all h = let e : ds ≡ [] = cc in rw e (done (cc))
  decide-Decides (r ∷ rs) decided ds after_all h =
      let (applies, g, h') = >>=-eq-ok (guard_holds r.applies_when c decided known) _ h in
      round-Decides r rs decided applies ds after_all g h' (λ x es y. decide-Decides rs x es y)

  -- Every decided row comes from a requirement of the file, coherently.
  pub Decides-FromFile :
      {rs : List Requirement} {before after : Decided} {ds : List Decision}
      → Decides c known rs before ds after
      → All (λ d. Any (λ r. IsCoherent r d) rs) ds
  Decides-FromFile (done e) = tt
  Decides-FromFile (skipped {ds = ds} g run) = All-map ds (λ d h. inr h) (Decides-FromFile run)
  Decides-FromFile (taken {r} {rs} {d = d} {ds = ds} g p run) = (
    inl (evaluate_requirement-IsCoherent c r d p),
    All-map ds (λ d h. inr h) (Decides-FromFile run),
  )

  newly_recorded :
      (id : String) (s : Status) (d : Decision) (before : Decided) (ds : List Decision)
      → (if str_eq d.entry.id id then some d.entry.status else lookup id before) ≡ some s
      → (lookup id before ≡ some s) ⊎ Any (λ d. (d.entry.id ≡ id) × (d.entry.status ≡ s)) (d ∷ ds)
  newly_recorded id s d before ds h = elim (Bool-cases (str_eq d.entry.id id)) [
    | inl same ↦ inr (inl ((eq_iff d.entry.id id).0 same, value_of (rw same at h)))
    | inr other ↦ inl (rw other at h)
  ]

  -- What the loop has recorded at its end, it had at its start or decided on the way.
  pub Decides-recorded :
      {rs : List Requirement} {before after : Decided} {ds : List Decision} (id : String)
      (s : Status)
      → Decides c known rs before ds after
      → lookup id after ≡ some s
      → (lookup id before ≡ some s) ⊎ Any (λ d. (d.entry.id ≡ id) × (d.entry.status ≡ s)) ds
  Decides-recorded id s (done e) h = inl (rw e h)
  Decides-recorded id s (skipped g run) h = Decides-recorded id s run h
  Decides-recorded id s (taken {before = before} {d = d} {ds = ds} g p run) h =
      elim (Decides-recorded id s run h) [
        | inl old ↦ newly_recorded id s d before ds (rw lookup-insert at old)
        | inr new ↦ inr (inr new)
      ]
