-- ===== src/Redact/Secrets.antt =====
-- The secrets that the sweep looks for (`_environment_secrets`, src/hrmosaic/core/redact.py).
use quantic_mosaic.Prelude.{
  size, ◌≤◌, ◌≡◌, ◌↔◌, ◌⊎◌, refl, sym, ap, ◌∙◌, inl, inr, true, false, not, ◌&&◌, List, [], ◌∷◌,
  String, ◌<>◌, str_eq, eq_iff, All, All-map, Any, Bool-cases, arith, leb, ltb, member, if_both,
}
use text.Mathlib.TextLemmas.{nil-append, cons-append}
use text.Mathlib.TextPositions.{eq_refl}
use mathlib.Core.Path.{subst}
use quantic_mosaic.Redact.{ends, ends_any, credential_suffixes, insert_longest, environment_secrets}

pub member_iff :
    (name : String) (xs : List String) → (member name xs ≡ true) ↔ Any (λ x. name ≡ x) xs
member_iff name [] = (λ h. cc, λ h. elim h [ ])
member_iff name (x ∷ xs) = (
  λ h. ground (arith, (member_iff name xs).0, eq_iff name x),
  λ h. ground (arith, (member_iff name xs).1, eq_iff name x),
)

insert_longest-All :
    (P : String → Type 0) (s : String) (xs : List String)
    → P s
    → All P xs
    → All P (insert_longest s xs)
unfolding insert_longest
insert_longest-All P s [] p h = (p, tt)
insert_longest-All P s (t ∷ xs) p h =
    if_both (All P) (ltb (size s) (size t)) _ _ (h.0, insert_longest-All P s xs p h.1) (p, h)

pub environment_secrets-IsLong :
    (upper : String → String) (environment : List (String × String))
    → All (λ secret. 8 ≤ size secret) (environment_secrets upper environment)
unfolding environment_secrets
environment_secrets-IsLong upper [] = tt
environment_secrets-IsLong upper ((name, value) ∷ more) =
    elim (Bool-cases (
      ends_any credential_suffixes (upper name)
      && (leb 8 (size value) && not (member value (environment_secrets upper more))))) [
        | inl e ↦
            rw e
              (insert_longest-All _ value _ (ground arith) (environment_secrets-IsLong upper more))
        | inr e ↦ rw e (environment_secrets-IsLong upper more)
      ]

-- A name that ends in one of the suffixes of a credential.
abbrev pub IsEnding : String → String → Type 0
IsEnding name suffix = (stem : String) × (name ≡ stem <> suffix)

abbrev pub IsCredential : String → Type 0
IsCredential name = IsEnding name "_KEY" ⊎ IsEnding name "_TOKEN" ⊎ IsEnding name "_SECRET"

ends-IsEnding : (suffix name : String) → ends suffix name ≡ true → IsEnding name suffix
unfolding ends
ends-IsEnding suffix String.[] h = ("", sym ((eq_iff suffix "").0 h) ∙ sym (nil-append suffix))
ends-IsEnding suffix (String.◌∷◌ c name) h = elim (Bool-cases (str_eq suffix (String.◌∷◌ c name))) [
  | inl e ↦ ("", sym ((eq_iff suffix (String.◌∷◌ c name)).0 e) ∙ sym (nil-append suffix))
  | inr e ↦
      let (stem, same) = ends-IsEnding suffix name (rw e at h) in
      (String.◌∷◌ c stem, ap (String.◌∷◌ c) same ∙ sym (cons-append c stem suffix))
]

ends_self : (s : String) → ends s s ≡ true
unfolding ends
ends_self String.[] = eq_refl ""
ends_self (String.◌∷◌ c s) = rw (eq_refl (String.◌∷◌ c s)) refl

ends-append : (suffix stem : String) → ends suffix (stem <> suffix) ≡ true
unfolding ends
ends-append suffix String.[] = rw (nil-append suffix) (ends_self suffix)
ends-append suffix (String.◌∷◌ c stem) =
    rw (cons-append c stem suffix) (ground (arith, ends-append suffix stem))

ends_iff : (suffix name : String) → (ends suffix name ≡ true) ↔ IsEnding name suffix
ends_iff suffix name = (
  ends-IsEnding suffix name,
  λ h. subst (λ n. ends suffix n ≡ true) (sym h.1) (ends-append suffix h.0),
)

ends_any_iff : (name : String) → (ends_any credential_suffixes name ≡ true) ↔ IsCredential name
unfolding ends_any
ends_any_iff name = (
  λ h.
      ground
        (arith, (ends_iff "_KEY" name).0, (ends_iff "_TOKEN" name).0, (ends_iff "_SECRET" name).0),
  λ h. elim h [
    | inl k ↦ ground (arith, (ends_iff "_KEY" name).1 k)
    | inr (inl k) ↦ ground (arith, (ends_iff "_TOKEN" name).1 k)
    | inr (inr k) ↦ ground (arith, (ends_iff "_SECRET" name).1 k)
  ],
)

-- Texts of which none is longer than one before it, and no two are the same.
abbrev pub IsFalling : List String → Type 0
IsFalling [] = Unit
IsFalling (s ∷ rest) = All (λ t. size t ≤ size s) rest × IsFalling rest

abbrev pub AreDistinct : List String → Type 0
AreDistinct [] = Unit
AreDistinct (s ∷ rest) = (¬ Any (λ t. s ≡ t) rest) × AreDistinct rest

insert-IsFalling : (s : String) (xs : List String) → IsFalling xs → IsFalling (insert_longest s xs)
unfolding insert_longest
insert-IsFalling s [] h = (tt, tt)
insert-IsFalling s (t ∷ xs) h = elim (Bool-cases (ltb (size s) (size t))) [
  | inl e ↦ rw e (insert_longest-All _ s xs (ground arith) h.0, insert-IsFalling s xs h.1)
  | inr e ↦
      let below : size t ≤ size s = ground arith in
      rw e ((below, All-map xs (λ u k. omega arith) h.0), h)
]

insert-Any :
    (value s : String) (xs : List String)
    → Any (λ t. value ≡ t) (insert_longest s xs) ↔ ((value ≡ s) ⊎ Any (λ t. value ≡ t) xs)
unfolding insert_longest
insert-Any value s [] = (λ h. h, λ h. h)
insert-Any value s (t ∷ xs) = elim (Bool-cases (ltb (size s) (size t))) [
  | inl e ↦ rw e (
    λ h. ground (arith, (insert-Any value s xs).0),
    λ h. ground (arith, (insert-Any value s xs).1),
  )
  | inr e ↦ rw e (λ h. h, λ h. h)
]

insert-AreDistinct :
    (s : String) (xs : List String)
    → (¬ Any (λ t. s ≡ t) xs)
    → AreDistinct xs
    → AreDistinct (insert_longest s xs)
unfolding insert_longest
insert-AreDistinct s [] new h = (new, tt)
insert-AreDistinct s (t ∷ xs) new h = elim (Bool-cases (ltb (size s) (size t))) [
  | inl e ↦ rw e (
    λ k. elim ((insert-Any t s xs).0 k) [ inl same ↦ new (inl (sym same)) | inr there ↦ h.0 there ],
    insert-AreDistinct s xs (λ k. new (inr k)) h.1,
  )
  | inr e ↦ rw e (new, h)
]

held_already :
    (value v : String) (secrets : List String)
    → value ≡ v
    → member v secrets ≡ true
    → Any (λ s. value ≡ s) secrets
held_already value v secrets same h =
    subst (λ u. Any (λ s. u ≡ s) secrets) (sym same) ((member_iff v secrets).0 h)

module _ (upper : String → String) where
  -- An entry of the environment that holds a value as a credential.
  abbrev pub Holds : String → String × String → Type 0
  Holds value e = (value ≡ e.1) × IsCredential (upper e.0) × (8 ≤ size e.1)

  abbrev AreSecrets : List (String × String) → Type 0
  AreSecrets environment =
      IsFalling (environment_secrets upper environment)
      × AreDistinct (environment_secrets upper environment)

  environment_secrets-AreSecrets : (environment : List (String × String)) → AreSecrets environment
  unfolding environment_secrets
  environment_secrets-AreSecrets [] = (tt, tt)
  environment_secrets-AreSecrets ((name, value) ∷ more) =
      let secrets = environment_secrets upper more in
      let (falling, distinct) = environment_secrets-AreSecrets more in
      elim (Bool-cases (
        ends_any credential_suffixes (upper name)
        && (leb 8 (size value) && not (member value secrets)))) [
          | inl e ↦
              let new : member value secrets ≡ false = ground arith in
              rw e (
                insert-IsFalling value secrets falling,
                insert-AreDistinct value secrets (λ k. cc ((member_iff value secrets).1 k, new))
                    distinct,
              )
          | inr e ↦ rw e (falling, distinct)
        ]

  environment_secrets-Any :
      (environment : List (String × String)) (value : String)
      → Any (λ s. value ≡ s) (environment_secrets upper environment) ↔ Any (Holds value) environment
  unfolding environment_secrets
  environment_secrets-Any [] value = (λ h. h, λ h. h)
  environment_secrets-Any ((name, v) ∷ more) value =
      let secrets = environment_secrets upper more in
      let rest = environment_secrets-Any more value in
      elim (Bool-cases
        (ends_any credential_suffixes (upper name) && (leb 8 (size v) && not (member v secrets)))) [
          | inl e ↦
              let named = (ends_any_iff (upper name)).0 (ground arith) in
              let long : 8 ≤ size v = ground arith in
              rw e (
                λ k. elim ((insert-Any value v secrets).0 k) [
                  | inl same ↦ inl (same, named, long)
                  | inr there ↦ inr (rest.0 there)
                ],
                λ k. elim k [
                  | inl h ↦ (insert-Any value v secrets).1 (inl h.0)
                  | inr there ↦ (insert-Any value v secrets).1 (inr (rest.1 there))
                ],
              )
          | inr e ↦ rw e (
            λ k. inr (rest.0 k),
            λ k. elim k [
              | inl h ↦
                  held_already value v secrets h.0
                    (let named = (ends_any_iff (upper name)).1 h.1 in ground (arith, named, h.2))
              | inr there ↦ rest.1 there
            ],
          )
        ]

  -- The secrets that are swept are the values of at least 8 characters that the environment holds under
  -- a name whose upper case ends in _KEY, _TOKEN or _SECRET, each once and no shorter one first.
  pub environment_secrets-Holds :
      (environment : List (String × String)) (value : String)
      → (Any (λ s. value ≡ s) (environment_secrets upper environment)
          ↔ Any (Holds value) environment)
        × IsFalling (environment_secrets upper environment)
        × AreDistinct (environment_secrets upper environment)
  environment_secrets-Holds environment value =
      let (falling, distinct) = environment_secrets-AreSecrets environment in
      (environment_secrets-Any environment value, falling, distinct)
