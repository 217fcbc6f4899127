-- ===== src/Gate/Minted.antt =====
-- From a minted confirmation to the write of its ticket (src/hrmosaic/mcpserver/confirm.py,
-- src/hrmosaic/mcpserver/tools/create_mock_hr_ticket.py).
use quantic_mosaic.Prelude.{
  ℕ, ◌+◌, ◌*◌, ◌≤◌, ◌<◌, ◌≡◌, refl, sym, ap, ◌∙◌, true, false, none, some, List, [], ◌∷◌, ◌++◌,
  String, ◌<>◌, str_eq, eq_iff, eq_refl, arith, insert, lookup-insert, ◌==◌,
}
use mathlib.Core.Path.{subst}
use quantic_mosaic.Gate.Store.{
  Confirmation, MockWrite, Store, unspent_of, rows_of, writes_of, find, find_write,
}
use quantic_mosaic.Gate.Confirm.{
  words, Arguments, Json, token_argument, canonical_arguments, minted_row, mint, validate,
  spent_store, written_store, write_of, allocated, consume, TicketCall, TicketOutcome,
  ticket_payload, answer, ticket_validated, ticket_tool, ticket,
}
use quantic_mosaic.Gate.Checks.{Passes, validate_iff, canonical-insert}
use quantic_mosaic.Gate.SingleUse.{
  Gate, Reachable, Reachable-Balanced, insert-inverted, unspent-append,
}

-- The row minted last, under a fresh token.
find-append :
    (token : String) (cs : List Confirmation) (c : Confirmation)
    → c.token ≡ token
    → rows_of token cs ≡ 0
    → find token (cs ++ c ∷ []) ≡ some c
unfolding find rows_of
find-append token [] c t h = let e = (eq_iff c.token token).1 t in rw e
find-append token (d ∷ cs) c t h = ground (arith, find-append token cs c t)

write-append :
    (token : String) (ws : List MockWrite) (w : MockWrite)
    → w.confirmation_token ≡ token
    → writes_of token ws ≡ 0
    → find_write token (ws ++ w ∷ []) ≡ some w.id
unfolding find_write writes_of
write-append token [] w t h = let e = (eq_iff w.confirmation_token token).1 t in rw e
write-append token (v ∷ ws) w t h = ground (arith, write-append token ws w t)

unspent-le : (token : String) (cs : List Confirmation) → unspent_of token cs ≤ rows_of token cs
unfolding unspent_of rows_of
unspent-le token [] = omega arith
unspent-le token (c ∷ cs) = ground (arith, unspent-le token cs)

-- The write and the answer of a call that was validated and consumed.
pub record Wrote (writes : List MockWrite) (call : TicketCall) (created_at token : String)
    (result : Store × TicketOutcome) : Type 0 where
  pub write : MockWrite
  pub appended : result.0.mock_writes ≡ writes ++ write ∷ []
  pub of_token : write.confirmation_token ≡ token
  pub for_employee : write.employee_id ≡ call.employee_id
  pub answered :
      result.1
      ≡ TicketOutcome.created write.id call.queue call.priority created_at call.employee_id
          ("/dashboard/safety#" <> write.id)

ticket-Wrote :
    (json : Json) (store : Store) (call : TicketCall) (validated : ℕ) (created_at : String)
    (consumed : ℕ) (c : Confirmation)
    → validate json store validated ticket_tool call.arguments ≡ some c
    → unspent_of c.token store.confirmations ≡ 1
    → writes_of c.token store.mock_writes ≡ 0
    → Wrote store.mock_writes call created_at c.token
        (ticket json store call validated created_at consumed)
unfolding ticket ticket_validated consume answer written_store spent_store allocated
ticket-Wrote json store call validated created_at consumed c h one fresh =
    let e : (unspent_of c.token store.confirmations == 1) ≡ true = rw one in
    let w =
      write_of json (spent_store store c.token consumed) c "hr_ticket" "MOCK-HR-" call.employee_id
        (ticket_payload call created_at) consumed in
    let t : w.confirmation_token ≡ c.token = unfold write_of in refl in
    rw (h, e)
      (record {
        write = w;
        appended = refl;
        of_token = t;
        for_employee = unfold write_of in refl;
        answered = rw (write-append c.token store.mock_writes w t fresh);
      })

minted-Passes :
    (json : Json) (store : Store) (row : Confirmation) (now : ℕ) (tool_name : String)
    (arguments : Arguments)
    → rows_of row.token store.confirmations ≡ 0
    → str_eq row.token "" ≡ false
    → row.used_at ≡ none
    → now < row.expires_at
    → row.user_response ≡ "confirmed"
    → row.tool_name ≡ tool_name
    → row.arguments_json ≡ canonical_arguments json arguments
    → Passes json
        (record store { confirmations = store.confirmations ++ row ∷ [] })
        now
        tool_name
        (insert token_argument (words row.token) arguments)
        row
minted-Passes json store row now tool_name arguments fresh full unused live confirmed tool same =
    record {
      supplied = lookup-insert token_argument token_argument (words row.token) arguments;
      nonempty = full;
      stored = find-append row.token store.confirmations row refl fresh;
      unused = unused;
      live = live;
      confirmed = confirmed;
      same_tool = tool;
      same_arguments = same ∙ sym (canonical-insert json (words row.token) arguments);
    }

-- In a reachable store, a confirmation minted as "confirmed" under a fresh token that is not empty,
-- for the arguments of a ticket call, lets that call through when it is sent again with the token
-- before the confirmation expires: one write of the token is appended, and its id is answered.
pub mint-ticket :
    (json : Json) (gate : Gate) (token session_id turn_id span_id : String) (arguments : Arguments)
    (human_summary : String) (ttl_s now : ℕ) (store' : Store) (call : TicketCall) (validated : ℕ)
    (created_at : String) (consumed : ℕ)
    → Reachable json gate
    → mint json gate.store token session_id turn_id span_id ticket_tool arguments human_summary
        "confirmed" ttl_s now
      ≡ some store'
    → str_eq token "" ≡ false
    → validated < now + ttl_s * 1000000
    → call.arguments ≡ insert token_argument (words token) arguments
    → Wrote gate.store.mock_writes call created_at token
        (ticket json store' call validated created_at consumed)
unfolding mint minted_row
mint-ticket json gate token session_id turn_id span_id arguments human_summary ttl_s now store' call
      validated created_at consumed run h full live sent =
    let row =
      minted_row json token session_id turn_id span_id ticket_tool arguments human_summary
        "confirmed" ttl_s now in
    let (fresh, e) = insert-inverted gate.store store' row h in
    let b = Reachable-Balanced token run in
    let none_written : writes_of token gate.store.mock_writes ≡ 0 =
      omega (arith, b.writes_le, fresh) in
    let none_unspent : unspent_of token gate.store.confirmations ≡ 0 =
      omega (arith, unspent-le token gate.store.confirmations, fresh) in
    let one : unspent_of token (gate.store.confirmations ++ row ∷ []) ≡ 1 =
      rw (unspent-append, none_unspent, eq_refl token) in
    let passes =
      minted-Passes json gate.store row validated ticket_tool arguments fresh full refl live refl
        refl refl in
    let let_through = (validate_iff json _ validated ticket_tool _ row).1 passes in
    subst
      (λ s.
        Wrote gate.store.mock_writes call created_at token
          (ticket json s call validated created_at consumed))
      (sym e)
      (ticket-Wrote json
        (record (gate.store) { confirmations = gate.store.confirmations ++ row ∷ [] }) call
        validated created_at consumed row
        (ap (validate json _ validated ticket_tool) sent ∙ let_through) one none_written)
