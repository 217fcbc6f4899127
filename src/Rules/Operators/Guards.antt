-- ===== src/Rules/Operators/Guards.antt =====
-- What a guard on another row says when it holds.
use quantic_mosaic.Prelude.{
  ◌≡◌, ◌≢◌, refl, sym, ◌∙◌, Bool, true, false, Option, none, some, List, String, str_eq, eq_iff,
  lookup, member, before, after, if◌then◌else◌, Bool-cases, inl, inr,
}
use mathlib.Core.Bool.{false≢true}
use quantic_mosaic.Rules.Data.{Context, Status, Result, ok, err, guard_names_no_requirement}
use quantic_mosaic.Rules.Operators.{
  status_is, guard_of_kind, starts_with_any, guard_prefixes, guard_holds,
}

status_is-unmet : (o : Option Status) → status_is false o ≡ true → o ≡ some Status.unmet
status_is-unmet none h = cc
status_is-unmet (some Status.met) h = cc
status_is-unmet (some Status.unmet) h = refl
status_is-unmet (some Status.not_stated) h = cc

status_is-met : (o : Option Status) → status_is true o ≡ true → o ≡ some Status.met
status_is-met none h = cc
status_is-met (some Status.met) h = refl
status_is-met (some Status.unmet) h = cc
status_is-met (some Status.not_stated) h = cc

ok_true : {b : Bool} → Result.ok b ≡ ok true → b ≡ true
ok_true h = cc

-- The test of a known id, which raises where the id is not known.
recorded_known :
    (b : Bool) (guard : String) (v : Bool)
    → (if b then ok v else err (guard_names_no_requirement guard)) ≡ ok true
    → v ≡ true
recorded_known true guard v h = ok_true h
recorded_known false guard v h = cc

module _ (c : Context) (decided : List (String × Status)) (known : List String) where
  kind-unmet :
      (guard kind rest : String)
      → kind ≡ "unmet"
      → guard_of_kind c decided known guard kind rest ≡ ok true
      → lookup rest decided ≡ some Status.unmet
  unfolding guard_of_kind
  kind-unmet guard kind rest e h =
      status_is-unmet _ (recorded_known (member rest known) guard _ (rw e at h))

  kind-met :
      (guard kind rest : String)
      → kind ≡ "met"
      → guard_of_kind c decided known guard kind rest ≡ ok true
      → lookup rest decided ≡ some Status.met
  unfolding guard_of_kind
  kind-met guard kind rest e h =
      status_is-met _ (recorded_known (member rest known) guard _ (rw e at h))

  -- Past its first two tests a guard is what its kind says.
  guard-kind :
      (guard : String)
      → before b':' guard ≢ "always"
      → guard_holds (some guard) c decided known ≡ ok true
      → guard_of_kind c decided known guard (before b':' guard) (after b':' guard) ≡ ok true
  unfolding guard_holds before
  guard-kind guard differs h = elim (Bool-cases (str_eq guard "always")) [
    | inl e ↦ absurd (differs (let e' : guard ≡ "always" = (eq_iff guard "always").0 e in rw e'))
    | inr e ↦ elim (Bool-cases (starts_with_any guard_prefixes guard)) [
      | inl p ↦ rw (e, p) at h
      | inr p ↦ cc (rw (e, p) at h)
    ]
  ]

  -- Where a guard `unmet:<id>` holds, the status decided for that id is unmet: no row, or a row that is
  -- met or not stated, does not satisfy it.
  pub guard-unmet :
      (guard : String)
      → guard_holds (some guard) c decided known ≡ ok true
      → before b':' guard ≡ "unmet"
      → lookup (after b':' guard) decided ≡ some Status.unmet
  guard-unmet guard h e =
      kind-unmet guard _ _ e
        (guard-kind guard (λ a. false≢true ((eq_iff "always" "unmet").1 (sym a ∙ e))) h)

  -- Where a guard `met:<id>` holds, the status decided for that id is met.
  pub guard-met :
      (guard : String)
      → guard_holds (some guard) c decided known ≡ ok true
      → before b':' guard ≡ "met"
      → lookup (after b':' guard) decided ≡ some Status.met
  guard-met guard h e =
      kind-met guard _ _ e
        (guard-kind guard (λ a. false≢true ((eq_iff "always" "met").1 (sym a ∙ e))) h)
