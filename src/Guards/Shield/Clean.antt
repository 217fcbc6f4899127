-- ===== src/Guards/Shield/Clean.antt =====
-- What the injection shield leaves of a tool result (src/hrmosaic/agent/guardrails/g4.py).
use quantic_mosaic.Prelude.{
  ℕ, zero, suc, ◌≡◌, refl, sym, ap, ◌∙◌, ◌⊎◌, inl, inr, true, false, some, String, str_eq, eq_iff,
  eq_refl, Bool-cases, if_both, if_pair, arith, if◌then◌else◌,
}
use quantic_mosaic.Guards.Shield.{
  Json, null, truth, number, text, array, object, Items, nil, cons, Members, end, member, get, set,
  map_items, map_members, Patterns, is_order, withhold, into, walk, quarantine_tool_result,
}

unfoldable pub AllItems : (Json → Type 0) → Items → Type 0
AllItems P nil = Unit
AllItems P (cons x rest) = P x × AllItems P rest

unfoldable pub AllMembers : (Json → Type 0) → Members → Type 0
AllMembers P end = Unit
AllMembers P (member name value rest) = P value × AllMembers P rest

AllItems-map :
    (P : Json → Type 0) (f : Json → Json) (xs : Items)
    → ((x : Json) → P (f x))
    → AllItems P (map_items f xs)
unfolding AllItems map_items
AllItems-map P f nil h = tt
AllItems-map P f (cons x rest) h = (h x, AllItems-map P f rest h)

AllMembers-map :
    (P : Json → Type 0) (f : Json → Json) (xs : Members)
    → ((x : Json) → P (f x))
    → AllMembers P (map_members f xs)
unfolding AllMembers map_members
AllMembers-map P f end h = tt
AllMembers-map P f (member name value rest) h = (h value, AllMembers-map P f rest h)

map_items_same :
    (P : Json → Type 0) (f : Json → Json) (xs : Items)
    → ((x : Json) → P x → f x ≡ x)
    → AllItems P xs
    → map_items f xs ≡ xs
unfolding AllItems map_items
map_items_same P f nil h k = refl
map_items_same P f (cons x rest) h k =
    ap (λ y. cons y (map_items f rest)) (h x k.0) ∙ ap (cons x) (map_items_same P f rest h k.1)

map_members_same :
    (P : Json → Type 0) (f : Json → Json) (xs : Members)
    → ((x : Json) → P x → f x ≡ x)
    → AllMembers P xs
    → map_members f xs ≡ xs
unfolding AllMembers map_members
map_members_same P f end h k = refl
map_members_same P f (member name value rest) h k =
    ap (λ y. member name y (map_members f rest)) (h value k.0)
    ∙ ap (member name value) (map_members_same P f rest h k.1)

true-false : true ≡ false → ⊥
true-false e = cc

get-set :
    (key new : String) (value : Json) (members : Members)
    → get key (set new value members) ≡ (if str_eq new key then some value else get key members)
unfolding get set
get-set key new value end = refl
get-set key new value (member name old rest) =
    ground (get-set key new value rest, eq_iff new key, eq_iff name new, eq_iff name key, arith)

module _ (patterns : Patterns) where
  -- No text that gives orders under one of the two keys, within this many levels.
  unfoldable pub Within : (Json → Type 0) → Json → Type 0
  Within P null = Unit
  Within P (truth b) = Unit
  Within P (number n) = Unit
  Within P (text s) = Unit
  Within P (array items) = AllItems P items
  Within P (object members) =
      (is_order patterns (get "text" members) ≡ false)
      × (is_order patterns (get "snippet" members) ≡ false)
      × AllMembers P members

  unfoldable pub IsClean : ℕ → Json → Type 0
  IsClean zero j = Unit
  IsClean (suc left) j = Within (IsClean left) j

  -- An entry that is no order leaves none under its key, and nothing new elsewhere.
  set-order :
      (other key : String) (value : Json) (members : Members)
      → is_order patterns (some value) ≡ false
      → (str_eq key other ≡ true) ⊎ (is_order patterns (get other members) ≡ false)
      → is_order patterns (get other (set key value members)) ≡ false
  set-order other key value members v h =
      ap (is_order patterns) (get-set other key value members)
      ∙ elim (Bool-cases (str_eq key other)) [
        | inl e ↦ rw e v
        | inr e ↦ rw e (elim h [ inl f ↦ absurd (true-false (sym f ∙ e)) | inr k ↦ k ])
      ]

  withhold_order :
      (key other : String) (members : Members)
      → (str_eq key other ≡ true) ⊎ (is_order patterns (get other members) ≡ false)
      → is_order patterns (get other (set "quarantined" (truth true) (set key null members)))
        ≡ false
  unfolding is_order
  withhold_order key other members h =
      set-order other "quarantined" (truth true) (set key null members) refl
        (inr (set-order other key null members refl h))

  withhold-order :
      (key : String) (members : Members)
      → is_order patterns (get key (withhold patterns key members)) ≡ false
  unfolding withhold
  withhold-order key members = elim (Bool-cases (is_order patterns (get key members))) [
    | inl e ↦ rw e (withhold_order key key members (inl (eq_refl key)))
    | inr e ↦ rw (e, e) refl
  ]

  withhold_keeps :
      (key other : String) (members : Members)
      → is_order patterns (get other members) ≡ false
      → is_order patterns (get other (withhold patterns key members)) ≡ false
  unfolding withhold
  withhold_keeps key other members h =
      if_both (λ m. is_order patterns (get other m) ≡ false) (is_order patterns (get key members)) _
        _ (withhold_order key other members (inr h)) h

  get-map_members :
      (f : Json → Json) (key : String) (members : Members)
      → ((x : Json) → is_order patterns (some (f x)) ≡ is_order patterns (some x))
      → is_order patterns (get key (map_members f members)) ≡ is_order patterns (get key members)
  unfolding get map_members
  get-map_members f key end h = refl
  get-map_members f key (member name value rest) h =
      if_pair (λ x y. is_order patterns x ≡ is_order patterns y) (str_eq name key) _ _ _ _ (h value)
        (get-map_members f key rest h)

  into-order :
      (f : Json → Json) (x : Json)
      → is_order patterns (some (into patterns f x)) ≡ is_order patterns (some x)
  unfolding into is_order
  into-order f null = refl
  into-order f (truth b) = refl
  into-order f (number n) = refl
  into-order f (text s) = refl
  into-order f (array items) = refl
  into-order f (object members) = refl

  walk-order :
      (left : ℕ) (x : Json)
      → is_order patterns (some (walk patterns left x)) ≡ is_order patterns (some x)
  unfolding walk
  walk-order zero x = refl
  walk-order (suc left) x = into-order (walk patterns left) x

  into-Within :
      (P : Json → Type 0) (f : Json → Json) (j : Json)
      → ((x : Json) → is_order patterns (some (f x)) ≡ is_order patterns (some x))
      → ((x : Json) → P (f x))
      → Within P (into patterns f j)
  unfolding into Within
  into-Within P f null h k = tt
  into-Within P f (truth b) h k = tt
  into-Within P f (number n) h k = tt
  into-Within P f (text s) h k = tt
  into-Within P f (array items) h k = AllItems-map P f items k
  into-Within P f (object members) h k =
      let once = withhold patterns "text" members in
      let twice = withhold patterns "snippet" once in
      (
        get-map_members f "text" twice h
            ∙ withhold_keeps "snippet" "text" once (withhold-order "text" members),
        get-map_members f "snippet" twice h ∙ withhold-order "snippet" once,
        AllMembers-map P f twice k,
      )

  walk-IsClean : (left : ℕ) (j : Json) → IsClean left (walk patterns left j)
  unfolding walk IsClean
  walk-IsClean zero j = tt
  walk-IsClean (suc left) j =
      into-Within (IsClean left) (walk patterns left) j (walk-order left) (walk-IsClean left)

  withhold_none :
      (key : String) (members : Members)
      → is_order patterns (get key members) ≡ false
      → withhold patterns key members ≡ members
  unfolding withhold
  withhold_none key members h = rw h refl

  into_same :
      (P : Json → Type 0) (f : Json → Json) (j : Json)
      → ((x : Json) → P x → f x ≡ x)
      → Within P j
      → into patterns f j ≡ j
  unfolding into Within
  into_same P f null h k = refl
  into_same P f (truth b) h k = refl
  into_same P f (number n) h k = refl
  into_same P f (text s) h k = refl
  into_same P f (array items) h k = ap array (map_items_same P f items h k)
  into_same P f (object members) h (no_text, no_snippet, rest) =
      ap (λ m. object (map_members f (withhold patterns "snippet" m)))
        (withhold_none "text" members no_text)
      ∙ ap (λ m. object (map_members f m)) (withhold_none "snippet" members no_snippet)
      ∙ ap object (map_members_same P f members h rest)

  walk_same : (left : ℕ) (j : Json) → IsClean left j → walk patterns left j ≡ j
  unfolding walk IsClean
  walk_same zero j h = refl
  walk_same (suc left) j h = into_same (IsClean left) (walk patterns left) j (walk_same left) h

  -- Whatever a tool returns, no dictionary of the first seven levels of what the shield lets through
  -- holds under `text` or `snippet` a text that one of the patterns finds; and a result that holds none
  -- passes as it is, so that shielding a result twice is shielding it once.
  pub quarantine_tool_result-IsClean :
      (body : Json)
      → IsClean 7 (quarantine_tool_result patterns body)
        × (IsClean 7 body → quarantine_tool_result patterns body ≡ body)
        × (quarantine_tool_result patterns (quarantine_tool_result patterns body)
            ≡ quarantine_tool_result patterns body)
  unfolding quarantine_tool_result
  quarantine_tool_result-IsClean body = (
    walk-IsClean 7 body,
    walk_same 7 body,
    walk_same 7 (walk patterns 7 body) (walk-IsClean 7 body),
  )
