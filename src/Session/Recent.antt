-- ===== src/Session/Recent.antt =====
-- The turns that a session reads back (`_slots_and_write` and `recent`,
-- src/hrmosaic/agent/session.py). The rows of the tables `turns` and `spans` are lists, and a payload is
-- the fields that are read of it.
pub mod Order
use quantic_mosaic.Prelude.{
  ℕ, zero, suc, Bool, true, false, not, ◌&&◌, Option, none, some, List, [], ◌∷◌, String, str_eq,
  lookup, member, map, keep, take, leb, ◌==◌, if◌then◌else◌,
}
use quantic_mosaic.Prelude.Int.{ℤ, pos}
use quantic_mosaic.Rules.Value.{Value, none_value, bool, int, float, text, Dict}
use quantic_mosaic.Rules.Print.{py_str, strip}
use quantic_mosaic.Session.{PriorTurn, Write, filled, or_text, update}

pub record TurnRow : Type 0 where
  pub id : String
  pub session_id : String
  pub seq : ℕ
  pub user_message : Option String
  pub outcome : Option String
  pub workflow : Option String

-- A `tool_call` span.
pub record SpanRow : Type 0 where
  pub turn_id : String
  pub seq : ℕ
  pub tool_name : Option String
  pub arguments : Dict
  pub parameters : Dict
  pub ticket_id : Option String
  pub draft_id : Option String

pub record Tables : Type 0 where
  pub turns : List TurnRow
  pub spans : List SpanRow
  pub float_repr : ℤ → String

abbrev slot_tools : List String
slot_tools = "check_policy_compliance" ∷ "create_mock_hr_ticket" ∷ "check_pto_balance" ∷ []

abbrev slot_keys : List String
slot_keys =
    "start_date" ∷ "end_date" ∷ "days" ∷ "duration_days" ∷ "destination_country" ∷ "amount_usd"
    ∷ "category" ∷ "reason" ∷ "scenario" ∷ []

-- `ORDER BY seq` and `ORDER BY seq DESC`, by insertion.
module _ {A : Type 0} (seq : A → ℕ) where
  unfoldable pub insert_up : A → List A → List A
  insert_up e [] = e ∷ []
  insert_up e (x ∷ xs) =
      let rest = insert_up e xs in if leb (seq x) (seq e) then x ∷ rest else e ∷ x ∷ xs

  unfoldable pub order_up : List A → List A
  unfolding insert_up
  order_up [] = []
  order_up (x ∷ xs) = insert_up x (order_up xs)

  unfoldable pub insert_down : A → List A → List A
  insert_down e [] = e ∷ []
  insert_down e (x ∷ xs) =
      let rest = insert_down e xs in if leb (seq x) (seq e) then e ∷ x ∷ xs else x ∷ rest

  unfoldable pub order_down : List A → List A
  unfolding insert_down
  order_down [] = []
  order_down (x ∷ xs) = insert_down x (order_down xs)

unfoldable pub reversed_onto : {A : Type 0} → List A → List A → List A
reversed_onto [] done = done
reversed_onto (x ∷ xs) done = reversed_onto xs (x ∷ done)

-- `value not in (None, "")`.
is_filled : Value → Bool
is_filled none_value = false
is_filled (text s) = not (str_eq s "")
is_filled _ = true

slots_of : Dict → Dict
unfolding is_filled
slots_of candidates = keep (λ slot. member slot.0 slot_keys && is_filled slot.1) candidates

-- `str(value or "")`.
text_of : (ℤ → String) → Option Value → String
unfolding py_str
text_of float_repr none = ""
text_of float_repr (some none_value) = ""
text_of float_repr (some (bool false)) = ""
text_of float_repr (some (int (pos zero))) = ""
text_of float_repr (some (float (pos zero))) = ""
text_of float_repr (some v) = py_str float_repr v

-- `a or b`.
or_next : Option String → Option String → Option String
or_next none b = b
or_next (some a) b = some a

-- The write that a span made, or the one before it.
write_by : (ℤ → String) → String → Dict → Option String → Option Write → Option Write
unfolding text_of strip
write_by float_repr tool arguments none found = found
write_by float_repr tool arguments (some write_id) found = some (record {
  tool = tool;
  write_id = write_id;
  summary = strip (text_of float_repr (lookup "summary" arguments));
  workflow = none;
  slots = [];
})

read_spans : (ℤ → String) → List SpanRow → Dict → Option Write → Dict × Option Write
unfolding slots_of write_by or_next filled or_text update
read_spans float_repr [] slots write = (slots, write)
read_spans float_repr (row ∷ rows) slots write =
    let tool = or_text "" row.tool_name in
    if member tool slot_tools
    then read_spans float_repr rows (update slots (slots_of (update row.arguments row.parameters)))
        (write_by float_repr tool row.arguments
          (or_next (filled row.ticket_id) (filled row.draft_id)) write)
    else read_spans float_repr rows slots write

unfoldable pub slots_and_write : Tables → String → Dict × Option Write
unfolding read_spans order_up
slots_and_write tables turn_id =
    read_spans tables.float_repr
      (order_up (λ (row : SpanRow). row.seq)
        (keep (λ (row : SpanRow). str_eq row.turn_id turn_id) tables.spans))
      [] none

field_of : (Write → String) → Option Write → Option String
field_of f none = none
field_of f (some write) = some (f write)

unfoldable pub prior_turn : Tables → TurnRow → PriorTurn
unfolding slots_and_write field_of or_text filled
prior_turn tables row =
    let (slots, write) = slots_and_write tables row.id in
    record {
      seq = row.seq;
      question = or_text "" row.user_message;
      outcome = or_text "" row.outcome;
      workflow = filled row.workflow;
      slots = slots;
      write_id = field_of (λ w. w.write_id) write;
      write_tool = field_of (λ w. w.tool) write;
      write_summary = field_of (λ w. w.summary) write;
    }

-- `outcome IS NOT NULL`.
abbrev pub is_closed : TurnRow → Bool
is_closed row = elim row.outcome [ none ↦ false | some _ ↦ true ]

-- The rows that the query of `recent` returns, latest first.
unfoldable pub recent_rows : Tables → String → ℕ → List TurnRow
unfolding order_down
recent_rows tables session_id limit = take limit (
    order_down (λ (row : TurnRow). row.seq)
      (keep (λ row. str_eq row.session_id session_id && is_closed row) tables.turns))

unfoldable pub recent : Tables → String → ℕ → List PriorTurn
unfolding recent_rows prior_turn reversed_onto
recent tables session_id limit =
    map (prior_turn tables) (reversed_onto (recent_rows tables session_id limit) [])
