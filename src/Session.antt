-- ===== src/Session.antt =====
-- What a turn takes over from the turns before it in its session (`relates_to`, `performed_write`,
-- `inherited_slots` and `known`, src/hrmosaic/agent/session.py). The values of slots are scalars.
pub mod Recent
pub mod Filed
use quantic_mosaic.Prelude.{
  ℕ, ◌≡◌, refl, ap, ◌∙◌, ◌⊎◌, inl, inr, Bool, true, false, not, ◌&&◌, ◌||◌, Option, none, some,
  List, [], ◌∷◌, ◌++◌, String, str_eq, eq_iff, lookup, insert, lookup-insert, any, map,
  if◌then◌else◌, Bool-cases,
}
use quantic_mosaic.Rules.Value.{Value, Dict, py_eq}

pub record PriorTurn : Type 0 where
  pub seq : ℕ
  pub question : String
  pub outcome : String
  pub workflow : Option String
  pub slots : Dict
  pub write_id : Option String
  pub write_tool : Option String
  pub write_summary : Option String

pub record Write : Type 0 where
  pub tool : String
  pub write_id : String
  pub summary : String
  pub workflow : Option String
  pub slots : Dict

abbrev subject_slots : List String
subject_slots = "start_date" ∷ "end_date" ∷ "destination_country" ∷ "amount_usd" ∷ []

-- Both are there, neither is empty, and they are the same.
same_workflow : Option String → Option String → Bool
same_workflow (some a) (some b) = not (str_eq a "") && (not (str_eq b "") && str_eq a b)
same_workflow _ _ = false

same_slot : Option Value → Option Value → Bool
unfolding py_eq
same_slot (some a) (some b) = py_eq a b
same_slot _ _ = false

unfoldable pub relates_to : Option Write → Option String → Dict → Bool
unfolding same_workflow same_slot
relates_to none workflow slots = false
relates_to (some write) workflow slots =
    same_workflow write.workflow workflow
    || any (λ key. same_slot (lookup key write.slots) (lookup key slots)) subject_slots

-- A text that is there and not empty.
unfoldable pub filled : Option String → Option String
filled none = none
filled (some s) = if str_eq s "" then none else some s

-- `text or default`.
or_text : String → Option String → String
or_text default none = default
or_text default (some s) = s

unfoldable pub write_of : PriorTurn → String → Write
unfolding or_text filled
write_of turn id = record {
  tool = or_text "create_mock_hr_ticket" (filled turn.write_tool);
  write_id = id;
  summary = or_text "" (filled turn.write_summary);
  workflow = turn.workflow;
  slots = turn.slots;
}

-- One round of `performed_write`.
abbrev pub written_in : PriorTurn → Option String → Option Write → Option Write
written_in turn none found = found
written_in turn (some id) found = some (write_of turn id)

unfoldable pub performed_from : Option Write → List PriorTurn → Option Write
unfolding write_of filled
performed_from found [] = found
performed_from found (turn ∷ turns) =
    performed_from (written_in turn (filled turn.write_id) found) turns

unfoldable pub performed_write : List PriorTurn → Option Write
unfolding performed_from
performed_write turns = performed_from none turns

-- `slots.update(other)`.
unfoldable pub update : Dict → Dict → Dict
update slots [] = slots
update slots ((key, value) ∷ other) = update (insert key value slots) other

unfoldable pub inherited_from : Dict → List PriorTurn → Dict
unfolding update
inherited_from slots [] = slots
inherited_from slots (turn ∷ turns) = inherited_from (update slots turn.slots) turns

unfoldable pub inherited_slots : List PriorTurn → Dict
unfolding inherited_from
inherited_slots turns = inherited_from [] turns

unfoldable pub known : List PriorTurn → List String
unfolding inherited_slots
known turns = map (λ slot. slot.0) (inherited_slots turns)

-- No two entries of a dictionary have the same key.
abbrev pub DistinctKeys : Dict → Type 0
DistinctKeys [] = Unit
DistinctKeys ((key, value) ∷ rest) = (lookup key rest ≡ none) × DistinctKeys rest

-- The first of two values that is there.
abbrev pub or_older : Option Value → Option Value → Option Value
or_older (some v) older = some v
or_older none older = older

-- The value of a slot in the latest turn that has it.
abbrev pub latest_value : String → List PriorTurn → Option Value
latest_value key [] = none
latest_value key (turn ∷ turns) = or_older (latest_value key turns) (lookup key turn.slots)

abbrev pub AllDistinct : List PriorTurn → Type 0
AllDistinct [] = Unit
AllDistinct (turn ∷ turns) = DistinctKeys turn.slots × AllDistinct turns

or_older_assoc : (a b c : Option Value) → or_older a (or_older b c) ≡ or_older (or_older a b) c
or_older_assoc (some v) b c = refl
or_older_assoc none b c = refl

update-lookup :
    (key : String) (slots other : Dict)
    → DistinctKeys other
    → lookup key (update slots other) ≡ or_older (lookup key other) (lookup key slots)
unfolding update
update-lookup key slots [] h = refl
update-lookup key slots ((k, v) ∷ other) h =
    update-lookup key (insert k v slots) other h.1
    ∙ rw lookup-insert (inserted (Bool-cases (str_eq k key)))
  where
    inserted :
        (str_eq k key ≡ true) ⊎ (str_eq k key ≡ false)
        → or_older (lookup key other) (if str_eq k key then some v else lookup key slots)
          ≡ or_older (if str_eq k key then some v else lookup key other) (lookup key slots)
    inserted (inl e) =
        let same : k ≡ key = (eq_iff k key).0 e in
        let absent : lookup key other ≡ none = rw same at h.0 in rw (e, absent)
    inserted (inr e) = rw e

inherited-lookup :
    (key : String) (slots : Dict) (turns : List PriorTurn)
    → AllDistinct turns
    → lookup key (inherited_from slots turns) ≡ or_older (latest_value key turns) (lookup key slots)
unfolding inherited_from
inherited-lookup key slots [] h = refl
inherited-lookup key slots (turn ∷ turns) h =
    inherited-lookup key (update slots turn.slots) turns h.1
    ∙ ap (or_older (latest_value key turns)) (update-lookup key slots turn.slots h.0)
    ∙ or_older_assoc (latest_value key turns) (lookup key turn.slots) (lookup key slots)

or_older-none : (a : Option Value) → or_older a none ≡ a
or_older-none none = refl
or_older-none (some v) = refl

-- Where the slots of each turn have distinct keys, a follow-up inherits of each slot the value in the
-- latest turn that has it, and no other slot.
pub inherited_slots-latest :
    (key : String) (turns : List PriorTurn)
    → AllDistinct turns
    → lookup key (inherited_slots turns) ≡ latest_value key turns
unfolding inherited_slots
inherited_slots-latest key turns h =
    inherited-lookup key [] turns h ∙ or_older-none (latest_value key turns)
