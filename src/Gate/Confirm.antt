-- ===== src/Gate/Confirm.antt =====
-- `mint`, `load`, `validate`, `consume` and `rejection` (src/hrmosaic/mcpserver/confirm.py) with
-- `canonical_arguments` (src/hrmosaic/core/canonical.py), and `_ticket`, which calls them
-- (src/hrmosaic/mcpserver/tools/create_mock_hr_ticket.py). Times are the clock's readings, in
-- microseconds, and the token is the random generator's: both are arguments.
use quantic_mosaic.Prelude.{
  ℕ, suc, ◌+◌, ◌*◌, not, Option, none, some, List, [], ◌∷◌, ◌++◌, String, ◌<>◌, str_eq, lookup, leb,
  ltb, ◌==◌, if◌then◌else◌,
}
use quantic_mosaic.Rules.Print.{show}
use quantic_mosaic.Gate.Store.{
  Confirmation, MockWrite, Store, find, spend, unspent_of, max_rowid, find_write, rows_of,
}

-- The value of one argument: a text, or any other JSON value by its own serialisation.
pub data Argument : Type 0 where
  words : String → Argument
  other : String → Argument

abbrev pub Arguments : Type 0
Arguments = List (String × Argument)

-- `json.dumps`, with sorted keys and tight separators, and with the defaults.
pub record Json : Type 0 where
  pub dumps_sorted : Arguments → String
  pub dumps : Arguments → String

abbrev pub token_argument : String
token_argument = "confirmation_token"

-- `{key: value for key, value in arguments.items() if key != TOKEN_ARGUMENT}`.
unfoldable pub without_token : Arguments → Arguments
without_token [] = []
without_token ((key, value) ∷ rest) =
    let kept = without_token rest in if str_eq key token_argument then kept else (key, value) ∷ kept

unfoldable pub canonical_arguments : Json → Arguments → String
unfolding without_token
canonical_arguments json arguments = json.dumps_sorted (without_token arguments)

-- The row that `mint` inserts.
unfoldable pub minted_row :
    Json
    → String
    → String
    → String
    → String
    → String
    → Arguments
    → String
    → String
    → ℕ
    → ℕ
    → Confirmation
unfolding canonical_arguments
minted_row json token session_id turn_id span_id tool_name arguments human_summary user_response
      ttl_s now =
    record {
      token = token;
      session_id = session_id;
      turn_id = turn_id;
      span_id = span_id;
      tool_name = tool_name;
      arguments_json = canonical_arguments json arguments;
      human_summary = human_summary;
      created_at = now;
      expires_at = now + ttl_s * 1000000;
      used_at = none;
      user_response = user_response;
    }

-- The insertion: no result where the primary key `token` is taken.
unfoldable pub insert_confirmation : Store → Confirmation → Option Store
unfolding rows_of
insert_confirmation store c =
    if rows_of c.token store.confirmations == 0
    then some (record store { confirmations = store.confirmations ++ c ∷ [] })
    else none

unfoldable pub mint :
    Json
    → Store
    → String
    → String
    → String
    → String
    → String
    → Arguments
    → String
    → String
    → ℕ
    → ℕ
    → Option Store
unfolding minted_row insert_confirmation
mint json store token session_id turn_id span_id tool_name arguments human_summary user_response
      ttl_s now =
    insert_confirmation store (
      minted_row json token session_id turn_id span_id tool_name arguments human_summary
        user_response ttl_s now)

unfoldable pub load : Store → String → Option Confirmation
unfolding find
load store token = find token store.confirmations

-- `arguments.get(TOKEN_ARGUMENT)`, where it is a text that is not empty.
unfoldable pub token_text : Option Argument → Option String
token_text (some (words s)) = if str_eq s "" then none else some s
token_text _ = none

unfoldable pub token_in : Arguments → Option String
unfolding token_text
token_in arguments = token_text (lookup token_argument arguments)

-- The checks after the row is loaded, in their order; `none` is `ConfirmationRejected`.
unfoldable pub check : ℕ → String → String → Confirmation → Option Confirmation
check now tool_name canonical c = elim c.used_at [
  | some _ ↦ none
  | none ↦
      if leb c.expires_at now
      then none
      else if not (str_eq c.user_response "confirmed")
      then none
      else if not (str_eq c.tool_name tool_name)
      then none
      else if not (str_eq c.arguments_json canonical)
      then none
      else some c
]

unfoldable pub check_loaded : ℕ → String → String → Option Confirmation → Option Confirmation
unfolding check
check_loaded now tool_name canonical none = none
check_loaded now tool_name canonical (some c) = check now tool_name canonical c

unfoldable pub validate_token :
    Json → Store → ℕ → String → Arguments → Option String → Option Confirmation
unfolding check_loaded canonical_arguments load
validate_token json store now tool_name arguments none = none
validate_token json store now tool_name arguments (some token) =
    check_loaded now tool_name (canonical_arguments json arguments) (load store token)

unfoldable pub validate : Json → Store → ℕ → String → Arguments → Option Confirmation
unfolding validate_token token_in
validate json store now tool_name arguments =
    validate_token json store now tool_name arguments (token_in arguments)

-- `printf('%06d', n)`.
padded : ℕ → String
unfolding show
padded n =
    (if ltb n 10
      then "00000"
      else if ltb n 100
      then "0000"
      else if ltb n 1000
      then "000"
      else if ltb n 10000
      then "00"
      else if ltb n 100000
      then "0"
      else "")
    <> show n

-- The row that the `INSERT` of `consume` appends.
unfoldable pub write_of :
    Json → Store → Confirmation → String → String → String → Arguments → ℕ → MockWrite
unfolding padded max_rowid
write_of json store c kind prefix employee_id payload now = record {
  rowid = suc (max_rowid store.mock_writes);
  id = prefix <> padded (suc (max_rowid store.mock_writes));
  kind = kind;
  created_at = now;
  session_id = c.session_id;
  turn_id = c.turn_id;
  span_id = c.span_id;
  employee_id = employee_id;
  payload_json = json.dumps payload;
  confirmation_token = c.token;
}

-- The store after the `UPDATE`.
unfoldable pub spent_store : Store → String → ℕ → Store
unfolding spend
spent_store store token now = record store { confirmations = spend now token store.confirmations }

-- The store after the `INSERT` too.
unfoldable pub written_store : Store → MockWrite → Store
written_store store w = record store { mock_writes = store.mock_writes ++ w ∷ [] }

-- `str` of the scalar that was selected.
unfoldable pub allocated : Option String → String
allocated none = "None"
allocated (some id) = id

unfoldable pub consume :
    Json → Store → Confirmation → String → String → String → Arguments → ℕ → Store × Option String
unfolding unspent_of spent_store written_store write_of find_write allocated
consume json store c kind prefix employee_id payload now =
    let spent = spent_store store c.token now in
    let written = written_store spent (write_of json spent c kind prefix employee_id payload now) in
    if unspent_of c.token store.confirmations == 1
    then (written, some (allocated (find_write c.token written.mock_writes)))
    else (spent, none)

-- The arguments of one `create_mock_hr_ticket` call, past its schema.
pub record TicketCall : Type 0 where
  pub arguments : Arguments
  pub employee_id : String
  pub queue : String
  pub summary : String
  pub details : String
  pub priority : String

-- The two results: the ticket, and the rejection, which has the same five keys whatever failed.
pub data TicketOutcome : Type 0 where
  created : String → String → String → String → String → String → TicketOutcome
  confirmation_required : String → String → Arguments → TicketOutcome

queue_labels : List (String × String)
queue_labels =
    ("hr-general", "HR")
    ∷ ("hr-timeoff", "HR Time Off team")
    ∷ ("hr-benefits", "HR Benefits team")
    ∷ ("hr-mobility", "HR Mobility team")
    ∷ ("hr-relations", "Employee Relations team")
    ∷ ("it-equipment", "IT Equipment team")
    ∷ []

queue_label : String → String
unfolding queue_labels
queue_label queue = elim (lookup queue queue_labels) [ none ↦ "HR" | some label ↦ label ]

human_summary : String → String → String
unfolding queue_label
human_summary queue summary =
    "Open an HR ticket with the " <> queue_label queue <> ": \"" <> summary <> "\"."

preview : TicketCall → Arguments
preview call =
    ("employee_id", words call.employee_id)
    ∷ ("queue", words call.queue)
    ∷ ("summary", words call.summary)
    ∷ ("priority", words call.priority)
    ∷ []

abbrev pub ticket_tool : String
ticket_tool = "create_mock_hr_ticket"

unfoldable pub rejection : TicketCall → TicketOutcome
unfolding human_summary preview
rejection call =
    confirmation_required ticket_tool (human_summary call.queue call.summary) (preview call)

unfoldable pub ticket_payload : TicketCall → String → Arguments
unfolding preview
ticket_payload call created_at =
    preview call
    ++ ("details", words call.details)
      ∷ ("created_at", words created_at)
      ∷ ("mock", other "true")
      ∷ []

unfoldable pub answer : TicketCall → String → Option String → TicketOutcome
unfolding rejection
answer call created_at none = rejection call
answer call created_at (some id) =
    created id call.queue call.priority created_at call.employee_id ("/dashboard/safety#" <> id)

unfoldable pub ticket_validated :
    Json → Store → TicketCall → String → ℕ → Option Confirmation → Store × TicketOutcome
unfolding consume ticket_payload answer rejection
ticket_validated json store call created_at now none = (store, rejection call)
ticket_validated json store call created_at now (some c) =
    let (after_call, id) =
      consume json store c "hr_ticket" "MOCK-HR-" call.employee_id (ticket_payload call created_at)
        now in
    (after_call, answer call created_at id)

-- `_ticket`: the clock is read at `validated`, as a text (`created_at`), and at `consumed`.
unfoldable pub ticket : Json → Store → TicketCall → ℕ → String → ℕ → Store × TicketOutcome
unfolding validate ticket_validated
ticket json store call validated created_at consumed =
    ticket_validated json store call created_at consumed
      (validate json store validated ticket_tool call.arguments)
