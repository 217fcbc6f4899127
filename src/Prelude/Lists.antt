-- ===== src/Prelude/Lists.antt =====
-- Lists measured by the native numbers, and the list operations that the source's comprehensions,
-- `any`, `in` and dictionaries need.
use Prim.Native.Nat.{ℕ, zero, suc, ◌+◌}
use mathlib.Core.Path.{◌≡◌, refl}
use mathlib.Core.Bool.{Bool, true, false, ◌||◌}
use mathlib.Core.List.{List, [], ◌∷◌, ◌++◌, map}
use mathlib.Core.Logic.{◌⊎◌, inl, inr}
use native.Mathlib.Omega.{arith}
use quantic_mosaic.Prelude.Tests.{if◌then◌else◌, Bool-cases}

module _ {ℓ} {A : Type ℓ} where
  abbrev pub length : List A → ℕ
  length [] = 0
  length (x ∷ xs) = suc (length xs)

  abbrev pub take : ℕ → List A → List A
  take zero xs = []
  take (suc n) [] = []
  take (suc n) (x ∷ xs) = x ∷ take n xs

  abbrev pub drop : ℕ → List A → List A
  drop zero xs = xs
  drop (suc n) [] = []
  drop (suc n) (x ∷ xs) = drop n xs

  pub length-append : (xs ys : List A) → length (xs ++ ys) ≡ length xs + length ys
  length-append [] ys = omega arith
  length-append (x ∷ xs) ys = omega (arith, length-append xs ys)

  -- Python's `any(p(x) for x in xs)`.
  abbrev pub any : (A → Bool) → List A → Bool
  any p [] = false
  any p (x ∷ xs) = p x || any p xs

  -- `[x for x in xs if p(x)]`.
  abbrev pub keep : (A → Bool) → List A → List A
  keep p [] = []
  keep p (x ∷ xs) = let rest = keep p xs in if p x then x ∷ rest else rest

  -- Every element has the property, and some element has it.
  abbrev pub All {κ} : (A → Type κ) → List A → Type κ
  All P [] = Unit
  All P (x ∷ xs) = P x × All P xs

  abbrev pub Any : (A → Type 0) → List A → Type 0
  Any P [] = ⊥
  Any P (x ∷ xs) = P x ⊎ Any P xs

module _ {ℓ} {A : Type ℓ} where
  pub Any-append_left : (P : A → Type 0) (xs ys : List A) → Any P xs → Any P (xs ++ ys)
  Any-append_left P [] ys h = elim h [ ]
  Any-append_left P (x ∷ xs) ys (inl p) = inl p
  Any-append_left P (x ∷ xs) ys (inr p) = inr (Any-append_left P xs ys p)

  pub Any-append_right : (P : A → Type 0) (xs ys : List A) → Any P ys → Any P (xs ++ ys)
  Any-append_right P [] ys h = h
  Any-append_right P (x ∷ xs) ys h = inr (Any-append_right P xs ys h)

  pub Any-map : {P Q : A → Type 0} (xs : List A) → ((x : A) → P x → Q x) → Any P xs → Any Q xs
  Any-map [] f h = elim h [ ]
  Any-map (x ∷ xs) f (inl p) = inl (f x p)
  Any-map (x ∷ xs) f (inr p) = inr (Any-map xs f p)

  pub All-append : (P : A → Type 0) (xs ys : List A) → All P xs → All P ys → All P (xs ++ ys)
  All-append P [] ys h k = k
  All-append P (x ∷ xs) ys h k = (h.0, All-append P xs ys h.1 k)

  pub All-map : {P Q : A → Type 0} (xs : List A) → ((x : A) → P x → Q x) → All P xs → All Q xs
  All-map [] f h = tt
  All-map (x ∷ xs) f h = (f x h.0, All-map xs f h.1)

  pub All-Any : (P Q : A → Type 0) (xs : List A) → All P xs → Any Q xs → Any (λ x. P x × Q x) xs
  All-Any P Q [] h k = elim k [ ]
  All-Any P Q (x ∷ xs) h (inl q) = inl (h.0, q)
  All-Any P Q (x ∷ xs) h (inr q) = inr (All-Any P Q xs h.1 q)

  pub any→Any : (p : A → Bool) (xs : List A) → any p xs ≡ true → Any (λ x. p x ≡ true) xs
  any→Any p [] h = cc
  any→Any p (x ∷ xs) h = elim (Bool-cases (p x)) [
    | inl e ↦ inl e
    | inr e ↦ inr (any→Any p xs (rw e at h))
  ]

  pub Any→any : (p : A → Bool) (xs : List A) → Any (λ x. p x ≡ true) xs → any p xs ≡ true
  Any→any p [] h = elim h [ ]
  Any→any p (x ∷ xs) (inl e) = rw e
  Any→any p (x ∷ xs) (inr t) = ground (arith, Any→any p xs t)

  pub any→All : (p : A → Bool) (xs : List A) → any p xs ≡ false → All (λ x. p x ≡ false) xs
  any→All p [] h = tt
  any→All p (x ∷ xs) h = ground (arith, any→All p xs)

  pub All→any : (p : A → Bool) (xs : List A) → All (λ x. p x ≡ false) xs → any p xs ≡ false
  All→any p [] h = refl
  All→any p (x ∷ xs) h = ground (arith, All→any p xs h.1)

module _ {ℓ κ} {A : Type ℓ} {B : Type κ} where
  pub any-map :
      (p : A → Bool) (q : B → Bool) (f : A → B) (xs : List A)
      → All (λ x. p x ≡ q (f x)) xs
      → any p xs ≡ any q (map f xs)
  any-map p q f [] h = refl
  any-map p q f (x ∷ xs) h = rw (h.0, any-map p q f xs h.1)

  pub All-map_list :
      (P : B → Type 0) (f : A → B) (xs : List A) → All (λ x. P (f x)) xs → All P (map f xs)
  All-map_list P f [] h = tt
  All-map_list P f (x ∷ xs) h = (h.0, All-map_list P f xs h.1)

module _ {ℓ} {A : Type ℓ} where
  pub All-All : {P : A → Type 0} (xs : List A) → ((x : A) → P x) → All P xs
  All-All [] f = tt
  All-All (x ∷ xs) f = (f x, All-All xs f)

module _ {ℓ κ} {A : Type ℓ} {B : Type κ} where
  pub Any-map_list :
      (P : B → Type 0) (f : A → B) (xs : List A) → Any (λ x. P (f x)) xs → Any P (map f xs)
  Any-map_list P f [] h = elim h [ ]
  Any-map_list P f (x ∷ xs) (inl p) = inl p
  Any-map_list P f (x ∷ xs) (inr p) = inr (Any-map_list P f xs p)
