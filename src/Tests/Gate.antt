-- ===== src/Tests/Gate.antt =====
-- One confirmed ticket, from its minting to its write and its second use
-- (src/hrmosaic/mcpserver/confirm.py, src/hrmosaic/mcpserver/tools/create_mock_hr_ticket.py).
use quantic_mosaic.Prelude.{◌≤◌, ◌≡◌, ◌↔◌, refl, inl, none, some, [], ◌∷◌, insert, All, Any, arith}
use quantic_mosaic.Gate.Store.{Confirmation, Store, writes_of, rows_of}
use quantic_mosaic.Gate.Confirm.{
  words, Arguments, Json, token_argument, mint, minted_row, insert_confirmation, validate, ticket,
  ticket_tool, TicketCall, rejection, canonical_arguments,
}
use quantic_mosaic.Gate.Checks.{Passes, validate_iff}
use quantic_mosaic.Gate.SingleUse.{Gate, Step, Reachable, consumed_store, single_use}
use quantic_mosaic.Gate.Provenance.{Authorises, every_write_confirmed}
use quantic_mosaic.Gate.Ticket.{ticket_rejected, ticket_once}
use quantic_mosaic.Gate.Minted.{Wrote, mint-ticket}

abbrev json : Json
json = record { dumps_sorted = λ a. "{}"; dumps = λ a. "{}" }

abbrev asked : Arguments
asked = ("queue", words "hr-timeoff") ∷ []

abbrev call : TicketCall
call = record {
  arguments = insert token_argument (words "t1") asked;
  employee_id = "E1";
  queue = "hr-timeoff";
  summary = "PTO";
  details = "";
  priority = "normal";
}

abbrev row : Confirmation
unfolding minted_row canonical_arguments
row = minted_row json "t1" "s" "u" "p" ticket_tool asked "Open" "confirmed" 600 1000

abbrev start : Gate
start = record { store = record { confirmations = []; mock_writes = [] }; validated = [] }

abbrev minted_store : Store
minted_store = record { confirmations = row ∷ []; mock_writes = [] }

mints :
    mint json start.store "t1" "s" "u" "p" ticket_tool asked "Open" "confirmed" 600 1000
    ≡ some minted_store
unfolding mint row rows_of
mints = refl

inserts : insert_confirmation start.store row ≡ some minted_store
unfolding insert_confirmation row rows_of
inserts = refl

unused : row.used_at ≡ none
unfolding row
unused = refl

lets_through : validate json minted_store 2000 ticket_tool call.arguments ≡ some row
unfolding validate row
lets_through = refl

abbrev open_gate : Gate
open_gate = record { store = minted_store; validated = row ∷ [] }

abbrev written_gate : Gate
written_gate = record {
  store = consumed_store json minted_store row "hr_ticket" "MOCK-HR-" "E1" [] 3000;
  validated = row ∷ [];
}

written : Reachable json written_gate
written =
    Reachable.next
      (Reachable.next
        (Reachable.next Reachable.empty (Step.minted {store' = minted_store} row unused inserts))
        (Step.validates {gate = record { store = minted_store; validated = [] }} 2000 ticket_tool
          call.arguments row lets_through))
      (Step.consumes {gate = open_gate} row "hr_ticket" "MOCK-HR-" "E1" [] 3000 (inl refl))

validate_iff_example :
    (validate json minted_store 2000 ticket_tool call.arguments ≡ some row)
    ↔ Passes json minted_store 2000 ticket_tool call.arguments row
validate_iff_example = validate_iff json minted_store 2000 ticket_tool call.arguments row

single_use_example : writes_of "t1" written_gate.store.mock_writes ≤ 1
single_use_example = single_use json written_gate "t1" written

every_write_confirmed_example :
    All (λ w. Any (Authorises w) written_gate.store.confirmations) written_gate.store.mock_writes
every_write_confirmed_example = every_write_confirmed json written_gate written

late : (ticket json minted_store call 700000000000 "now" 3000).1 ≡ rejection call
unfolding ticket validate row rejection
late = refl

ticket_rejected_example :
    (ticket json minted_store call 700000000000 "now" 3000).0.mock_writes ≡ minted_store.mock_writes
ticket_rejected_example = ticket_rejected json minted_store call 700000000000 "now" 3000 late

ticket_once_example :
    ticket json (ticket json minted_store call 2000 "now" 3000).0 call 4000 "then" 5000
    ≡ ((ticket json minted_store call 2000 "now" 3000).0, rejection call)
ticket_once_example =
    ticket_once json minted_store call 2000 "now" 3000 row call 4000 "then" 5000 lets_through refl

mint-ticket_example :
    Wrote start.store.mock_writes call "now" "t1" (ticket json minted_store call 2000 "now" 3000)
mint-ticket_example =
    mint-ticket json start "t1" "s" "u" "p" asked "Open" 600 1000 minted_store call 2000 "now" 3000
      Reachable.empty mints refl (omega arith) refl
