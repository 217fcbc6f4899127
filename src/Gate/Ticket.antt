-- ===== src/Gate/Ticket.antt =====
-- `_ticket` (src/hrmosaic/mcpserver/tools/create_mock_hr_ticket.py) against the gate's promises.
use quantic_mosaic.Prelude.{
  ℕ, ◌≡◌, refl, sym, ap, ◌∙◌, inl, inr, true, false, none, some, List, [], ◌∷◌, String, ◌<>◌,
  str_eq, eq_refl, arith, lookup, ◌==◌, ==_iff, Bool-cases, Option-cases,
}
use quantic_mosaic.Gate.Store.{Confirmation, Store, is_unspent, unspent_of, find}
use quantic_mosaic.Gate.Confirm.{
  words, Arguments, Json, token_argument, canonical_arguments, load, token_text, token_in, check,
  check_loaded, validate_token, validate, spent_store, written_store, consume, TicketCall,
  TicketOutcome, rejection, answer, ticket_validated, ticket_tool, ticket,
}
use quantic_mosaic.Gate.Checks.{validate_iff}
use quantic_mosaic.Gate.SingleUse.{unspent-spend}

-- A row found under a token that has no unspent row is used.
found-used :
    (token : String) (cs : List Confirmation) (c : Confirmation)
    → find token cs ≡ some c
    → unspent_of token cs ≡ 0
    → is_unspent c ≡ false
unfolding find unspent_of
found-used token [] c h k = cc
found-used token (d ∷ cs) c h k = elim (Bool-cases (str_eq d.token token)) [
  | inl e ↦
      let same : d ≡ c = cc (rw e at h) in
      let used : is_unspent d ≡ false = ground (arith, e, k) in rw same at used
  | inr e ↦ found-used token cs c (rw e at h) (ground (arith, e, k))
]

check-used :
    (now : ℕ) (tool_name canonical : String) (c : Confirmation)
    → is_unspent c ≡ false
    → check now tool_name canonical c ≡ none
unfolding check
check-used now tool_name canonical c h = ground (arith, h)

spent-unspent :
    (store : Store) (token : String) (now : ℕ)
    → unspent_of token (spent_store store token now).confirmations ≡ 0
unfolding spent_store
spent-unspent store token now = rw (unspent-spend, eq_refl token)

validate-spent :
    (json : Json) (store : Store) (now : ℕ) (tool_name : String) (arguments : Arguments)
    (token : String)
    → token_in arguments ≡ some token
    → unspent_of token store.confirmations ≡ 0
    → validate json store now tool_name arguments ≡ none
unfolding validate validate_token load check_loaded
validate-spent json store now tool_name arguments token h k =
    elim (Option-cases (find token store.confirmations)) [
      | inl e ↦ rw (h, e)
      | inr (c, e) ↦
          rw (h, e)
            (check-used now tool_name (canonical_arguments json arguments) c
              (found-used token store.confirmations c e k))
    ]

module _ (json : Json) (store : Store) (call : TicketCall) (validated : ℕ) (created_at : String)
    (consumed : ℕ) where
  -- The store after a call that `validate` let through has the token spent.
  ticket-spent :
      (c : Confirmation)
      → validate json store validated ticket_tool call.arguments ≡ some c
      → unspent_of c.token (ticket json store call validated created_at consumed).0.confirmations
        ≡ 0
  unfolding ticket ticket_validated consume written_store
  ticket-spent c h = elim (Bool-cases (unspent_of c.token store.confirmations == 1)) [
    | inl e ↦ rw (h, e) (spent-unspent store c.token consumed)
    | inr e ↦ rw (h, e) (spent-unspent store c.token consumed)
  ]

  ticket-stopped :
      validate json store validated ticket_tool call.arguments ≡ none
      → ticket json store call validated created_at consumed ≡ (store, rejection call)
  unfolding ticket ticket_validated
  ticket-stopped h = rw h

  ticket-consumed :
      (c : Confirmation)
      → validate json store validated ticket_tool call.arguments ≡ some c
      → unspent_of c.token store.confirmations ≡ 1
      → (id : String) × ((ticket json store call validated created_at consumed).1
          ≡ TicketOutcome.created id call.queue call.priority created_at call.employee_id
              ("/dashboard/safety#" <> id))
  unfolding ticket ticket_validated consume answer
  ticket-consumed c h one =
      let e : (unspent_of c.token store.confirmations == 1) ≡ true = rw one in rw (h, e) (_, refl)

  ticket-unconsumed :
      (c : Confirmation)
      → validate json store validated ticket_tool call.arguments ≡ some c
      → (unspent_of c.token store.confirmations == 1) ≡ false
      → (ticket json store call validated created_at consumed).0.mock_writes ≡ store.mock_writes
  unfolding ticket ticket_validated consume spent_store
  ticket-unconsumed c h e = rw (h, e)

  -- Where a call is answered with the rejection, it leaves the mock writes as they were.
  pub ticket_rejected :
      (ticket json store call validated created_at consumed).1 ≡ rejection call
      → (ticket json store call validated created_at consumed).0.mock_writes ≡ store.mock_writes
  unfolding rejection
  ticket_rejected h =
      elim (Option-cases (validate json store validated ticket_tool call.arguments)) [
        | inl e ↦ ap (λ r. r.0.mock_writes) (ticket-stopped e)
        | inr (c, e) ↦ elim (Bool-cases (unspent_of c.token store.confirmations == 1)) [
          | inl one ↦ let (id, g) = ticket-consumed c e ((==_iff _ 1).0 one) in cc (sym g ∙ h)
          | inr other ↦ ticket-unconsumed c e other
        ]
      ]

given-token :
    (again call : Arguments) (token : String)
    → lookup token_argument again ≡ lookup token_argument call
    → lookup token_argument call ≡ some (words token)
    → str_eq token "" ≡ false
    → token_in again ≡ some token
unfolding token_in token_text
given-token again call token same supplied nonempty = rw (same, supplied, nonempty)

module _ (json : Json) (store : Store) (call : TicketCall) (validated : ℕ) (created_at : String)
    (consumed : ℕ) where
  -- After a call that `validate` let through, each later call with the same token is answered with
  -- the rejection and leaves the store as it was, whatever its other arguments and its times.
  pub ticket_once :
      (c : Confirmation) (again : TicketCall) (validated' : ℕ) (created_at' : String)
      (consumed' : ℕ)
      → validate json store validated ticket_tool call.arguments ≡ some c
      → lookup token_argument again.arguments ≡ lookup token_argument call.arguments
      → ticket json
          (ticket json store call validated created_at consumed).0
          again
          validated'
          created_at'
          consumed'
        ≡ ((ticket json store call validated created_at consumed).0, rejection again)
  ticket_once c again validated' created_at' consumed' h same =
      let passes = (validate_iff json store validated ticket_tool call.arguments c).0 h in
      ticket-stopped json _ again validated' created_at' consumed' (
        validate-spent json _ validated' ticket_tool again.arguments c.token
          (given-token again.arguments call.arguments c.token same passes.supplied passes.nonempty)
          (ticket-spent json store call validated created_at consumed c h))
