-- ===== src/Guards/Shield.antt =====
-- G4, the injection shield (src/hrmosaic/agent/guardrails/g4.py, src/hrmosaic/core/injection.py). What a
-- pattern finds in a text is the regular-expression engine's, and is an argument.
pub mod Clean
use quantic_mosaic.Prelude.{
  first, ℕ, zero, suc, ◌+◌, Bool, true, false, not, ◌&&◌, Option, none, some, List, [], ◌∷◌, String,
  ◌<>◌, str_eq, length, ltb, ◌==◌, if◌then◌else◌,
}
use quantic_mosaic.Rules.Print.{show}
use quantic_mosaic.Guards.{Payload}

-- A decoded body. Numbers are one constructor, since the walk passes them by.
mutual
  pub data Json : Type 0 where
    null : Json
    truth : Bool → Json
    number : ℕ → Json
    text : String → Json
    array : Items → Json
    object : Members → Json

  pub data Items : Type 0 where
    nil : Items
    cons : Json → Items → Items

  pub data Members : Type 0 where
    end : Members
    member : String → Json → Members → Members

-- `node.get(key)` and `node[key] = value`.
unfoldable pub get : String → Members → Option Json
get key end = none
get key (member name value rest) =
    let found = get key rest in if str_eq name key then some value else found

unfoldable pub set : String → Json → Members → Members
set key new end = member key new end
set key new (member name value rest) =
    let after = set key new rest in
    if str_eq name key then member name new rest else member name value after

unfoldable pub map_items : (Json → Json) → Items → Items
map_items f nil = nil
map_items f (cons x rest) = cons (f x) (map_items f rest)

unfoldable pub map_members : (Json → Json) → Members → Members
map_members f end = end
map_members f (member name value rest) = member name (f value) (map_members f rest)

abbrev pub max_depth : ℕ
max_depth = 6

-- `PATTERNS`: a name, and what the pattern finds first in a text.
abbrev pub Patterns : Type 0
Patterns = List (String × (String → Option String))

hit : String → Option String → Option (String × String) → Option (String × String)
unfolding first
hit name none rest = rest
hit name (some found) rest = some (name, first 200 found)

scan_by : Patterns → String → Option (String × String)
unfolding hit
scan_by [] s = none
scan_by ((name, search) ∷ more) s = hit name (search s) (scan_by more s)

pub record Match : Type 0 where
  pub chunk_id : String
  pub pattern : String
  pub excerpt : String

module _ (patterns : Patterns) where
  unfoldable pub scan : String → Option (String × String)
  unfolding scan_by
  scan s = scan_by patterns s

  abbrev is_hit : Option (String × String) → Bool
  is_hit none = false
  is_hit (some hit) = true

  -- `isinstance(value, str) and value and scan(value) is not None`.
  unfoldable pub is_order : Option Json → Bool
  unfolding scan
  is_order none = false
  is_order (some null) = false
  is_order (some (truth b)) = false
  is_order (some (number n)) = false
  is_order (some (text s)) = not (str_eq s "") && is_hit (scan s)
  is_order (some (array items)) = false
  is_order (some (object members)) = false

  -- One key of a dictionary.
  unfoldable pub withhold : String → Members → Members
  unfolding is_order get set
  withhold key members =
      if is_order (get key members)
      then set "quarantined" (truth true) (set key null members)
      else members

  unfoldable pub into : (Json → Json) → Json → Json
  unfolding withhold map_items map_members
  into f null = null
  into f (truth b) = truth b
  into f (number n) = number n
  into f (text s) = text s
  into f (array items) = array (map_items f items)
  into f (object members) = object (map_members f (withhold "snippet" (withhold "text" members)))

  -- `_walk`, by the levels left.
  unfoldable pub walk : ℕ → Json → Json
  unfolding into
  walk zero j = j
  walk (suc left) j = into (walk left) j

  unfoldable pub quarantine_tool_result : Json → Json
  unfolding walk
  quarantine_tool_result body = walk (max_depth + 1) body

  abbrev with_match : String → Option (String × String) → List Match → List Match
  with_match chunk_id none rest = rest
  with_match chunk_id (some (pattern, excerpt)) rest =
      record { chunk_id = chunk_id; pattern = pattern; excerpt = excerpt } ∷ rest

  -- `scan_all`, over the ids and the texts of chunks.
  unfoldable pub scan_all : List (String × String) → List Match
  unfolding scan
  scan_all [] = []
  scan_all ((chunk_id, s) ∷ more) = with_match chunk_id (scan s) (scan_all more)

  abbrev passages : ℕ → String
  passages n = if n == 1 then "passage" else "passages"

  abbrev first_pattern : List Match → Option String
  first_pattern [] = none
  first_pattern (m ∷ ms) = some m.pattern

  -- `check`; the scope is the source with its underscores as spaces.
  unfoldable pub check : List (String × String) → String → List Match × Payload
  unfolding scan_all show
  check chunks scope =
      let matches = scan_all chunks in
      (
        matches,
        record {
          rule_id = "G4";
          verdict = if ltb 0 (length matches) then "warn" else "allow";
          reason =
              if ltb 0 (length matches)
              then show (length matches)
                <> " of "
                <> show (length chunks)
                <> " "
                <> scope
                <> " "
                <> passages (length chunks)
                <> " quarantined"
              else show (length chunks)
                <> " "
                <> scope
                <> " "
                <> passages (length chunks)
                <> " clean";
          evidence_span_ids = [];
          matched_pattern = first_pattern matches;
        },
      )
