-- ===== src/Redact/Scrubbed.antt =====
-- What redaction makes of a payload (src/hrmosaic/core/redact.py), against its values one by one.
use Prim.Native.Char.{code}
use quantic_mosaic.Prelude.{
  size, ℕ, ◌≤◌, ◌≡◌, ◌↔◌, refl, ◌⊎◌, inl, inr, Bool, true, false, not, ◌&&◌, Option, none, some,
  List, String, member, Any, All, All-map, Bool-cases, arith, ◌==◌, if◌then◌else◌,
}
use quantic_mosaic.Guards.Shield.{
  Json, null, truth, number, text, array, object, Items, nil, cons, Members, end, member as entry,
}
use quantic_mosaic.Redact.{
  redacted, redact_text, environment_secrets, preserved_keys, digest_keys, is_hex, is_sha256,
  is_denied, is_public_digest, unless_denied, walk, walk_items, walk_members, redact,
}
use quantic_mosaic.Redact.Replaced.{IsRedaction, redact_text-IsRedaction}
use quantic_mosaic.Redact.Secrets.{member_iff, environment_secrets-IsLong}

-- A text of 64 digits and letters from a to f.
abbrev IsHexCode : ℕ → Type 0
IsHexCode c = ((b'0' ≤ c) × (c ≤ b'9')) ⊎ ((b'a' ≤ c) × (c ≤ b'f'))

unfoldable pub AllHex : String → Type 0
AllHex String.[] = Unit
AllHex (String.◌∷◌ c s) = IsHexCode (code c) × AllHex s

is_hex_iff : (s : String) → (is_hex s ≡ true) ↔ AllHex s
unfolding is_hex AllHex
is_hex_iff String.[] = (λ h. tt, λ h. refl)
is_hex_iff (String.◌∷◌ c s) =
    (λ h. ground (arith, (is_hex_iff s).0), λ h. ground (arith, (is_hex_iff s).1 h.1))

module _ (lower : String → String) (finds_denied : String → Bool) (subs : List (String → String))
    (secrets : List String) where
  -- A key in which the pattern finds something and that is not the name of a token count.
  abbrev pub IsDenied : Option String → Type 0
  IsDenied none = ⊥
  IsDenied (some key) = (finds_denied key ≡ true) × ¬ Any (λ k. lower key ≡ k) preserved_keys

  -- A digest of public content: the name of one, and the shape of one.
  abbrev pub IsDigest : Option String → String → Type 0
  IsDigest none s = ⊥
  IsDigest (some key) s = Any (λ k. lower key ≡ k) digest_keys × (size s ≡ 64) × AllHex s

  -- Under a denied key stands the marker, under any other what is expected of the value.
  abbrev pub OrMarker : Option String → Json → Type 0 → Type 0
  OrMarker key after expected =
      (IsDenied key × (after ≡ text redacted)) ⊎ ((¬ IsDenied key) × expected)

  abbrev pub IsScrubbedText : Option String → String → String → Type 0
  IsScrubbedText key s t =
      (IsDigest key s × (t ≡ s)) ⊎ ((¬ IsDigest key s) × IsRedaction subs secrets s t)

  unfoldable mutual
    pub IsScrubbed : Option String → Json → Json → Type 0
    IsScrubbed key null after = OrMarker key after (after ≡ null)
    IsScrubbed key (truth b) after = OrMarker key after (after ≡ truth b)
    IsScrubbed key (number n) after = OrMarker key after (after ≡ number n)
    IsScrubbed key (text s) after =
        OrMarker key after ((t : String) × (after ≡ text t) × IsScrubbedText key s t)
    IsScrubbed key (array items) after =
        OrMarker key after ((out : Items) × (after ≡ array out) × AllScrubbed key items out)
    IsScrubbed key (object members) after =
        OrMarker key after ((out : Members) × (after ≡ object out) × AllEntriesScrubbed members out)

    pub AllScrubbed : Option String → Items → Items → Type 0
    AllScrubbed key nil out = out ≡ nil
    AllScrubbed key (cons j rest) out =
        (first : Json) × (more : Items) × (out ≡ cons first more)
        × IsScrubbed key j first
        × AllScrubbed key rest more

    pub AllEntriesScrubbed : Members → Members → Type 0
    AllEntriesScrubbed end out = out ≡ end
    AllEntriesScrubbed (entry name value rest) out =
        (first : Json) × (more : Members) × (out ≡ entry name first more)
        × IsScrubbed (some name) value first
        × AllEntriesScrubbed rest more

  is_denied-cases :
      (key : Option String)
      → ((is_denied lower finds_denied subs secrets key ≡ true) × IsDenied key)
        ⊎ ((is_denied lower finds_denied subs secrets key ≡ false) × ¬ IsDenied key)
  unfolding is_denied
  is_denied-cases none = inr (refl, λ h. h)
  is_denied-cases (some key) =
      elim (Bool-cases (not (member (lower key) preserved_keys) && finds_denied key)) [
        | inl e ↦
            inl
              (e, (ground arith, λ k. ground (arith, (member_iff (lower key) preserved_keys).1 k)))
        | inr e ↦
            inr (e, λ h. h.1 ((member_iff (lower key) preserved_keys).0 (ground (arith, h.0))))
      ]

  is_public_digest-cases :
      (key : Option String) (s : String)
      → ((is_public_digest lower finds_denied subs secrets key s ≡ true) × IsDigest key s)
        ⊎ ((is_public_digest lower finds_denied subs secrets key s ≡ false) × ¬ IsDigest key s)
  unfolding is_public_digest is_sha256
  is_public_digest-cases none s = inr (refl, λ h. h)
  is_public_digest-cases (some key) s =
      elim (Bool-cases (member (lower key) digest_keys && ((size s == 64) && is_hex s))) [
        | inl e ↦ inl (
          e,
          (
            (member_iff (lower key) digest_keys).0 (ground arith),
            ground arith,
            (is_hex_iff s).0 (ground arith),
          ),
        )
        | inr e ↦ inr (
          e,
          λ h.
              let m = (member_iff (lower key) digest_keys).1 h.0 in
              let x = (is_hex_iff s).1 h.2 in ground (arith, m, x, h.1),
        )
      ]

  unless_denied-OrMarker :
      (key : Option String) (j : Json) (P : Json → Type 0)
      → P j
      → OrMarker key
          (unless_denied lower finds_denied subs secrets key j)
          (P (unless_denied lower finds_denied subs secrets key j))
  unless_denied-OrMarker key j P p = elim (is_denied-cases key) [
    | inl (e, d) ↦ rw e (inl (d, refl))
    | inr (e, d) ↦ rw e (inr (d, p))
  ]

  module _ (long : All (λ secret. 1 ≤ size secret) secrets) where
    text-IsScrubbedText :
        (key : Option String) (s : String)
        → IsScrubbedText key s (
            if is_public_digest lower finds_denied subs secrets key s
            then s
            else redact_text subs secrets s)
    text-IsScrubbedText key s = elim (is_public_digest-cases key s) [
      | inl (e, d) ↦ rw e (inl (d, refl))
      | inr (e, d) ↦ rw e (inr (d, redact_text-IsRedaction subs secrets s long))
    ]

    mutual
      unfolding IsScrubbed walk

      walk-IsScrubbed :
          (key : Option String) (j : Json)
          → IsScrubbed key j (walk lower finds_denied subs secrets key j)
      walk-IsScrubbed key null = unless_denied-OrMarker key null (λ a. a ≡ null) refl
      walk-IsScrubbed key (truth b) = unless_denied-OrMarker key (truth b) (λ a. a ≡ truth b) refl
      walk-IsScrubbed key (number n) =
          unless_denied-OrMarker key (number n) (λ a. a ≡ number n) refl
      walk-IsScrubbed key (text s) =
          unless_denied-OrMarker key _ (λ a. (t : String) × (a ≡ text t) × IsScrubbedText key s t)
            (_, refl, text-IsScrubbedText key s)
      walk-IsScrubbed key (array items) =
          unless_denied-OrMarker key _
            (λ a. (out : Items) × (a ≡ array out) × AllScrubbed key items out)
            (_, refl, items-AllScrubbed key items)
      walk-IsScrubbed key (object members) =
          unless_denied-OrMarker key _
            (λ a. (out : Members) × (a ≡ object out) × AllEntriesScrubbed members out)
            (_, refl, members-AllScrubbed members)

      items-AllScrubbed :
          (key : Option String) (items : Items)
          → AllScrubbed key items (walk_items lower finds_denied subs secrets key items)
      items-AllScrubbed key nil = refl
      items-AllScrubbed key (cons j rest) =
          (_, _, refl, walk-IsScrubbed key j, items-AllScrubbed key rest)

      members-AllScrubbed :
          (members : Members)
          → AllEntriesScrubbed members (walk_members lower finds_denied subs secrets members)
      members-AllScrubbed end = refl
      members-AllScrubbed (entry name value rest) =
          (_, _, refl, walk-IsScrubbed (some name) value, members-AllScrubbed rest)

-- Redaction with the secrets of the environment reaches every value of a payload, at any depth. Under a
-- key in which the pattern finds something and that does not name a token count stands the marker.
-- Under any other key the shape stays: a text of 64 hex digits under the name of a public digest is as
-- it was, in every other text the patterns have been substituted one after another and then each
-- occurrence of each secret, from the left, replaced by the marker, and all else is as it was.
pub redact-IsScrubbed :
    (upper lower : String → String) (finds_denied : String → Bool) (subs : List (String → String))
    (environment : List (String × String)) (payload : Json)
    → let secrets = environment_secrets upper environment in
      IsScrubbed lower finds_denied subs secrets none payload
        (redact lower finds_denied subs secrets payload)
unfolding redact
redact-IsScrubbed upper lower finds_denied subs environment payload =
    let secrets = environment_secrets upper environment in
    walk-IsScrubbed lower finds_denied subs secrets
      (All-map secrets (λ secret h. omega arith) (environment_secrets-IsLong upper environment))
      none payload
