-- ===== src/Redact.antt =====
-- Redaction (src/hrmosaic/core/redact.py) and G6, which runs it on the finished answer
-- (src/hrmosaic/agent/guardrails/g6.py). What a pattern's `sub` makes of a text, whether the key pattern
-- finds something in a key, and `str.lower` and `str.upper` are arguments; so is the environment.
pub mod Replaced
pub mod Scrubbed
pub mod Secrets
use Prim.Native.Char.{code}
use quantic_mosaic.Prelude.{
  size, ℕ, zero, suc, ◌+◌, ◌-◌, Bool, true, false, not, ◌&&◌, ◌||◌, Option, none, some, List, [],
  ◌∷◌, String, ◌<>◌, str_eq, keep, member, starts, contains, ltb, leb, ◌==◌, if◌then◌else◌,
}
use quantic_mosaic.Guards.{Payload}
use quantic_mosaic.Guards.Shield.{
  Json, null, truth, number, text, array, object, Items, nil, cons, Members, end, member as entry,
}

abbrev pub redacted : String
redacted = "[REDACTED]"

abbrev min_sweepable_length : ℕ
min_sweepable_length = 8

abbrev pub preserved_keys : List String
preserved_keys =
    "prompt_tokens" ∷ "completion_tokens" ∷ "total_tokens" ∷ "cache_creation_input_tokens"
    ∷ "cache_read_input_tokens" ∷ []

abbrev pub credential_suffixes : List String
credential_suffixes = "_KEY" ∷ "_TOKEN" ∷ "_SECRET" ∷ []

abbrev pub digest_keys : List String
digest_keys = "catalog_sha" ∷ "corpus_sha256" ∷ "manifest_sha256" ∷ []

-- `name.endswith(suffix)`.
unfoldable pub ends : String → String → Bool
ends suffix String.[] = str_eq suffix ""
ends suffix (String.◌∷◌ c s) = let rest = ends suffix s in str_eq suffix (String.◌∷◌ c s) || rest

unfoldable pub ends_any : List String → String → Bool
unfolding ends
ends_any [] name = false
ends_any (suffix ∷ more) name = ends suffix name || ends_any more name

-- `SHA256_HEX`.
unfoldable pub is_hex : String → Bool
is_hex String.[] = true
is_hex (String.◌∷◌ c s) =
    ((leb b'0' (code c) && leb (code c) b'9') || (leb b'a' (code c) && leb (code c) b'f'))
    && is_hex s

unfoldable pub is_sha256 : String → Bool
unfolding is_hex size
is_sha256 s = (size s == 64) && is_hex s

-- The secrets of the environment, longest first.
unfoldable pub insert_longest : String → List String → List String
unfolding size
insert_longest s [] = s ∷ []
insert_longest s (t ∷ rest) =
    let after = insert_longest s rest in if ltb (size s) (size t) then t ∷ after else s ∷ t ∷ rest

unfoldable pub environment_secrets : (String → String) → List (String × String) → List String
unfolding ends_any size insert_longest
environment_secrets upper [] = []
environment_secrets upper ((name, value) ∷ more) =
    let rest = environment_secrets upper more in
    if ends_any credential_suffixes (upper name)
      && (leb min_sweepable_length (size value) && not (member value rest))
    then insert_longest value rest
    else rest

-- `text.replace(secret, REDACTED)`, past the characters that are still of the last match.
unfoldable pub replace_past : ℕ → String → String → String
unfolding starts size
replace_past skip secret String.[] = ""
replace_past (suc skip) secret (String.◌∷◌ c s) = replace_past skip secret s
replace_past zero secret (String.◌∷◌ c s) =
    let match = replace_past (size secret - 1) secret s in
    let rest = replace_past 0 secret s in
    if starts secret (String.◌∷◌ c s) then redacted <> match else String.◌∷◌ c rest

unfoldable pub sweep : List String → String → String
unfolding contains replace_past
sweep [] s = s
sweep (secret ∷ more) s = sweep more (if contains secret s then replace_past 0 secret s else s)

abbrev pub substitute : List (String → String) → String → String
substitute [] s = s
substitute (sub ∷ more) s = substitute more (sub s)

unfoldable pub redact_text : List (String → String) → List String → String → String
unfolding sweep
redact_text subs secrets s = sweep secrets (substitute subs s)

module _ (lower : String → String) (finds_denied : String → Bool) (subs : List (String → String))
    (secrets : List String) where
  unfoldable pub is_denied : Option String → Bool
  is_denied none = false
  is_denied (some key) = not (member (lower key) preserved_keys) && finds_denied key

  unfoldable pub is_public_digest : Option String → String → Bool
  unfolding is_sha256
  is_public_digest none s = false
  is_public_digest (some key) s = member (lower key) digest_keys && is_sha256 s

  abbrev pub unless_denied : Option String → Json → Json
  unless_denied key j = if is_denied key then text redacted else j

  -- `_walk`, and the same on the elements of a list and the entries of a dictionary.
  unfoldable mutual
    unfolding is_denied is_public_digest redact_text

    pub walk : Option String → Json → Json
    walk key null = unless_denied key null
    walk key (truth b) = unless_denied key (truth b)
    walk key (number n) = unless_denied key (number n)
    walk key (text s) =
        unless_denied key (text (if is_public_digest key s then s else redact_text subs secrets s))
    walk key (array items) = unless_denied key (array (walk_items key items))
    walk key (object members) = unless_denied key (object (walk_members members))

    pub walk_items : Option String → Items → Items
    walk_items key nil = nil
    walk_items key (cons j rest) = cons (walk key j) (walk_items key rest)

    pub walk_members : Members → Members
    walk_members end = end
    walk_members (entry name value rest) = entry name (walk (some name) value) (walk_members rest)

  unfoldable pub redact : Json → Json
  unfolding walk
  redact payload = walk none payload

  -- G6: `scrub`, and `check` with the span it writes. What `json.dumps` tells apart is an argument.
  abbrev pub scrub : (Json → Json → Bool) → Json → Json × Bool
  unfolding redact
  scrub differs value = (redact value, differs (redact value) value)

  unfoldable pub check : (Json → Json → Bool) → String → Json → Json × Payload
  unfolding scrub
  check differs subject value =
      let (scrubbed, changed) = scrub differs value in
      (
        scrubbed,
        record {
          rule_id = "G6";
          verdict = if changed then "strip" else "allow";
          reason =
              if changed then subject <> " scrubbed" else subject <> " carried nothing to redact";
          evidence_span_ids = [];
          matched_pattern = none;
        },
      )
