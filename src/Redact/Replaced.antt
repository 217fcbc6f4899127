-- ===== src/Redact/Replaced.antt =====
-- `text.replace` and the sweep for the secrets of the environment (src/hrmosaic/core/redact.py), against
-- the text character by character.
use Prim.Native.Char.{Char, code}
use text.Mathlib.TextEquality.{Char-path}
use text.Mathlib.TextLemmas.{nil-append, cons-append}
use quantic_mosaic.Prelude.{
  size, ℕ, zero, suc, ◌-◌, ◌≤◌, ◌≡◌, refl, sym, ◌∙◌, ap, inl, inr, true, false, List, [], ◌∷◌,
  String, ◌<>◌, starts, strip_prefix?, contains, arith, ◌==◌, ==_iff, Bool-cases, All,
}
use mathlib.Core.Path.{subst}
use quantic_mosaic.Redact.{redacted, replace_past, sweep, redact_text}

-- Each occurrence of a secret, from the left and apart, is the marker in the second text, and every other
-- character is as in the first.
pub data Replaced (secret : String) : String → String → Type 0 where
  done : Replaced secret "" ""
  hit : {s t : String} → Replaced secret s t → Replaced secret (secret <> s) (redacted <> t)
  kept :
      (c : Char) {s t : String}
      → starts secret (String.◌∷◌ c s) ≡ false
      → Replaced secret s t
      → Replaced secret (String.◌∷◌ c s) (String.◌∷◌ c t)

-- A text that does not hold the secret is as it was.
contains-Replaced : (secret s : String) → contains secret s ≡ false → Replaced secret s s
unfolding contains
contains-Replaced secret String.[] h = done
contains-Replaced secret (String.◌∷◌ c s) h =
    kept c (ground arith) (contains-Replaced secret s (ground arith))

-- `s[n:]`.
rest_of : ℕ → String → String
rest_of zero s = s
rest_of (suc n) String.[] = ""
rest_of (suc n) (String.◌∷◌ c s) = rest_of n s

starts-cons :
    (c d : Char) (p s : String)
    → starts (String.◌∷◌ c p) (String.◌∷◌ d s) ≡ true
    → (c ≡ d) × (starts p s ≡ true)
unfolding starts strip_prefix?
starts-cons c d p s h = elim (Bool-cases (code c == code d)) [
  | inl e ↦ (Char-path c d ((==_iff (code c) (code d)).0 e), rw (starts, e) at h)
  | inr e ↦ cc (rw (starts, e) at h)
]

starts-nil : (c : Char) (p : String) → starts (String.◌∷◌ c p) "" ≡ true → ⊥
unfolding starts strip_prefix?
starts-nil c p h = cc

starts-split : (p s : String) → starts p s ≡ true → s ≡ p <> rest_of (size p) s
unfolding rest_of size
starts-split String.[] s h = sym (nil-append s)
starts-split (String.◌∷◌ c p) String.[] h = elim (starts-nil c p h) [ ]
starts-split (String.◌∷◌ c p) (String.◌∷◌ d s) h =
    let (same, more) = starts-cons c d p s h in
    ap (String.◌∷◌ d) (starts-split p s more)
    ∙ ap (λ e. String.◌∷◌ e (p <> rest_of (size p) s)) (sym same)
    ∙ sym (cons-append c p (rest_of (size p) s))

hit-Replaced :
    (d : Char) (q s t : String)
    → starts (String.◌∷◌ d q) s ≡ true
    → Replaced (String.◌∷◌ d q) (rest_of (size (String.◌∷◌ d q)) s) t
    → Replaced (String.◌∷◌ d q) s (redacted <> t)
hit-Replaced d q s t h r =
    subst (λ u. Replaced (String.◌∷◌ d q) u (redacted <> t))
      (sym (starts-split (String.◌∷◌ d q) s h)) (hit r)

replace_past-Replaced :
    (d : Char) (q : String) (skip : ℕ) (s : String)
    → Replaced (String.◌∷◌ d q) (rest_of skip s) (replace_past skip (String.◌∷◌ d q) s)
unfolding replace_past rest_of size
replace_past-Replaced d q zero String.[] = done
replace_past-Replaced d q (suc skip) String.[] = done
replace_past-Replaced d q (suc skip) (String.◌∷◌ c s) = replace_past-Replaced d q skip s
replace_past-Replaced d q zero (String.◌∷◌ c s) =
    elim (Bool-cases (starts (String.◌∷◌ d q) (String.◌∷◌ c s))) [
      | inl e ↦
          let one : suc (size q) - 1 ≡ size q = omega arith in
          rw (e, one) (hit-Replaced d q (String.◌∷◌ c s) _ e (replace_past-Replaced d q (size q) s))
      | inr e ↦ rw e (kept c e (replace_past-Replaced d q 0 s))
    ]

-- A text in which one secret after another has been replaced.
unfoldable pub Swept : List String → String → String → Type 0
Swept [] s t = t ≡ s
Swept (secret ∷ more) s t = (mid : String) × Replaced secret s mid × Swept more mid t

-- A secret that the sweep looks for has some character.
abbrev pub IsLong : String → Type 0
IsLong secret = 1 ≤ size secret

replace-Replaced : (secret s : String) → IsLong secret → Replaced secret s (replace_past 0 secret s)
unfolding size rest_of
replace-Replaced String.[] s h = absurd (omega arith)
replace-Replaced (String.◌∷◌ d q) s h = replace_past-Replaced d q 0 s

sweep-Swept :
    (secrets : List String) (s : String) → All IsLong secrets → Swept secrets s (sweep secrets s)
unfolding sweep Swept
sweep-Swept [] s h = refl
sweep-Swept (secret ∷ more) s h = elim (Bool-cases (contains secret s)) [
  | inl e ↦ rw e (_, replace-Replaced secret s h.0, sweep-Swept more _ h.1)
  | inr e ↦ rw e (s, contains-Replaced secret s e, sweep-Swept more s h.1)
]

-- One pattern after another has been substituted, and then the secrets have been swept.
unfoldable pub IsRedaction : List (String → String) → List String → String → String → Type 0
unfolding Swept
IsRedaction [] secrets s t = Swept secrets s t
IsRedaction (sub ∷ subs) secrets s t = IsRedaction subs secrets (sub s) t

pub redact_text-IsRedaction :
    (subs : List (String → String)) (secrets : List String) (s : String)
    → All IsLong secrets
    → IsRedaction subs secrets s (redact_text subs secrets s)
unfolding IsRedaction redact_text
redact_text-IsRedaction [] secrets s h = sweep-Swept secrets s h
redact_text-IsRedaction (sub ∷ subs) secrets s h = redact_text-IsRedaction subs secrets (sub s) h
