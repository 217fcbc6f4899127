-- ===== src/Gate/SingleUse.antt =====
-- The gate over every order of calls (src/hrmosaic/mcpserver/confirm.py): confirmations are minted,
-- calls are validated and later consumed, with any calls in between, a process may stop between the
-- two statements of `consume`, and the dashboard may clear the mock writes.
use quantic_mosaic.Prelude.{
  ℕ, ◌+◌, ◌≤◌, ◌≡◌, refl, ap, inl, inr, ◌&&◌, none, some, List, [], ◌∷◌, ◌++◌, String, str_eq,
  eq_iff, arith, ◌==◌, ==_iff, if◌then◌else◌, Bool-cases, Any,
}
use quantic_mosaic.Gate.Store.{
  Confirmation, MockWrite, Store, is_unspent, spend, one_if, unspent_of, rows_of, writes_of,
}
use quantic_mosaic.Gate.Confirm.{
  Arguments, Json, insert_confirmation, validate, spent_store, written_store, write_of, consume,
}

-- A store, with the confirmations that `validate` has returned so far.
pub record Gate : Type 0 where
  pub store : Store
  pub validated : List Confirmation

unfoldable pub consumed_store :
    Json → Store → Confirmation → String → String → String → Arguments → ℕ → Store
unfolding consume
consumed_store json store c kind prefix employee_id payload now =
    (consume json store c kind prefix employee_id payload now).0

pub data Step (json : Json) : Gate → Gate → Type 0 where
  minted :
      {gate : Gate} {store' : Store} (c : Confirmation)
      → c.used_at ≡ none
      → insert_confirmation gate.store c ≡ some store'
      → Step json gate (record gate { store = store' })
  validates :
      {gate : Gate} (now : ℕ) (tool_name : String) (arguments : Arguments) (c : Confirmation)
      → validate json gate.store now tool_name arguments ≡ some c
      → Step json gate (record gate { validated = c ∷ gate.validated })
  consumes :
      {gate : Gate} (c : Confirmation) (kind prefix employee_id : String) (payload : Arguments)
      (now : ℕ)
      → Any (λ v. v ≡ c) gate.validated
      → Step json gate (record gate {
        store = consumed_store json gate.store c kind prefix employee_id payload now;
      })
  cut_short :
      {gate : Gate} (c : Confirmation) (now : ℕ)
      → Any (λ v. v ≡ c) gate.validated
      → Step json gate (record gate { store = spent_store gate.store c.token now })
  cleared :
      {gate : Gate}
      → Step json gate (record gate { store = record (gate.store) { mock_writes = [] } })

pub data Reachable (json : Json) : Gate → Type 0 where
  empty :
      Reachable json
        (record { store = record { confirmations = []; mock_writes = [] }; validated = [] })
  next : {gate gate' : Gate} → Reachable json gate → Step json gate gate' → Reachable json gate'

-- The count that every step keeps: for each token the writes and the unspent rows together are no
-- more than the rows, and the rows are at most one.
pub record Balanced (token : String) (store : Store) : Type 0 where
  pub writes_le :
      writes_of token store.mock_writes + unspent_of token store.confirmations
      ≤ rows_of token store.confirmations
  pub rows_le : rows_of token store.confirmations ≤ 1

rows-append :
    (token : String) (cs : List Confirmation) (c : Confirmation)
    → rows_of token (cs ++ c ∷ []) ≡ rows_of token cs + one_if (str_eq c.token token)
unfolding rows_of
rows-append token [] c = omega arith
rows-append token (d ∷ cs) c = omega (arith, rows-append token cs c)

pub unspent-append :
    (token : String) (cs : List Confirmation) (c : Confirmation)
    → unspent_of token (cs ++ c ∷ [])
      ≡ unspent_of token cs + one_if (str_eq c.token token && is_unspent c)
unfolding unspent_of
unspent-append token [] c = omega arith
unspent-append token (d ∷ cs) c = omega (arith, unspent-append token cs c)

writes-append :
    (token : String) (ws : List MockWrite) (w : MockWrite)
    → writes_of token (ws ++ w ∷ [])
      ≡ writes_of token ws + one_if (str_eq w.confirmation_token token)
unfolding writes_of
writes-append token [] w = omega arith
writes-append token (v ∷ ws) w = omega (arith, writes-append token ws w)

pub rows-spend :
    (now : ℕ) (spent token : String) (cs : List Confirmation)
    → rows_of token (spend now spent cs) ≡ rows_of token cs
unfolding rows_of spend
rows-spend now spent token [] = refl
rows-spend now spent token (c ∷ cs) = ground (arith, rows-spend now spent token cs)

-- Spending a token leaves no unspent row of it, and the unspent rows of the others as they were.
pub unspent-spend :
    (now : ℕ) (spent token : String) (cs : List Confirmation)
    → unspent_of token (spend now spent cs)
      ≡ (if str_eq spent token then 0 else unspent_of token cs)
unfolding unspent_of spend
unspent-spend now spent token [] = ground arith
unspent-spend now spent token (c ∷ cs) = ground (
  arith,
  unspent-spend now spent token cs,
  eq_iff spent token,
  eq_iff c.token token,
  eq_iff c.token spent,
)

-- What an insertion that succeeded tells.
pub insert-inverted :
    (store store' : Store) (c : Confirmation)
    → insert_confirmation store c ≡ some store'
    → (rows_of c.token store.confirmations ≡ 0)
      × (store' ≡ record store { confirmations = store.confirmations ++ c ∷ [] })
unfolding insert_confirmation
insert-inverted store store' c h = elim (Bool-cases (rows_of c.token store.confirmations == 0)) [
  | inl e ↦ ((==_iff _ 0).0 e, cc (rw e at h))
  | inr e ↦ cc (rw e at h)
]

-- What `consume` leaves: the token spent, and a write of it if it was unspent.
pub consumed-cases :
    (json : Json) (store : Store) (c : Confirmation) (kind prefix employee_id : String)
    (payload : Arguments) (now : ℕ) (P : Store → Type 0)
    → ((w : MockWrite)
        → w ≡ write_of json (spent_store store c.token now) c kind prefix employee_id payload now
        → unspent_of c.token store.confirmations ≡ 1
        → P (written_store (spent_store store c.token now) w))
    → P (spent_store store c.token now)
    → P (consumed_store json store c kind prefix employee_id payload now)
unfolding consumed_store consume
consumed-cases json store c kind prefix employee_id payload now P written spent =
    elim (Bool-cases (unspent_of c.token store.confirmations == 1)) [
      | inl e ↦ rw (consumed_store, e) (written _ refl ((==_iff _ 1).0 e))
      | inr e ↦ rw (consumed_store, e) spent
    ]

module _ (token : String) where
  insert-Balanced :
      (store store' : Store) (c : Confirmation)
      → insert_confirmation store c ≡ some store'
      → Balanced token store
      → Balanced token store'
  insert-Balanced store store' c h b =
      let (fresh, e) = insert-inverted store store' c h in
      rw e (record {
        writes_le =
            rw (rows-append, unspent-append)
              (ground (arith, b.writes_le, fresh, eq_iff c.token token));
        rows_le = rw (rows-append) (ground (arith, b.rows_le, fresh, eq_iff c.token token));
      })

  spent-Balanced :
      (store : Store) (spent : String) (now : ℕ)
      → Balanced token store
      → Balanced token (spent_store store spent now)
  unfolding spent_store
  spent-Balanced store spent now b = record {
    writes_le = rw (rows-spend, unspent-spend) (ground (arith, b.writes_le));
    rows_le = rw (rows-spend) b.rows_le;
  }

  written-Balanced :
      (store : Store) (spent : String) (now : ℕ) (w : MockWrite)
      → w.confirmation_token ≡ spent
      → unspent_of spent store.confirmations ≡ 1
      → Balanced token store
      → Balanced token (written_store (spent_store store spent now) w)
  unfolding spent_store written_store
  written-Balanced store spent now w same one b = record {
    writes_le =
        rw (rows-spend, unspent-spend, writes-append, same)
          (ground (arith, b.writes_le, one, eq_iff spent token));
    rows_le = rw (rows-spend) b.rows_le;
  }

  Step-Balanced :
      {json : Json} {gate gate' : Gate}
      → Step json gate gate'
      → Balanced token gate.store
      → Balanced token gate'.store
  Step-Balanced {gate = gate} (Step.minted {store' = store'} c unused h) b =
      insert-Balanced gate.store store' c h b
  Step-Balanced (Step.validates now tool_name arguments c h) b = b
  Step-Balanced {json} {gate = gate} (Step.consumes c kind prefix employee_id payload now v) b =
      consumed-cases json gate.store c kind prefix employee_id payload now (Balanced token)
        (λ w e one.
          written-Balanced gate.store c.token now w
            (unfold write_of in ap (λ w. w.confirmation_token) e) one b)
        (spent-Balanced gate.store c.token now b)
  Step-Balanced {gate = gate} (Step.cut_short c now v) b = spent-Balanced gate.store c.token now b
  Step-Balanced Step.cleared b = record {
    writes_le = unfold writes_of in omega (arith, b.writes_le);
    rows_le = b.rows_le;
  }

  pub Reachable-Balanced :
      {json : Json} {gate : Gate} → Reachable json gate → Balanced token gate.store
  unfolding writes_of unspent_of rows_of
  Reachable-Balanced Reachable.empty = record { writes_le = omega arith; rows_le = omega arith }
  Reachable-Balanced (Reachable.next run step) = Step-Balanced step (Reachable-Balanced run)

-- In every store that mints, validations, consumptions, consumptions cut short after their first
-- statement and clearings of the writes can reach, in any order, each token has at most one write.
pub single_use :
    (json : Json) (gate : Gate) (token : String)
    → Reachable json gate
    → writes_of token gate.store.mock_writes ≤ 1
single_use json gate token run =
    let b = Reachable-Balanced token run in omega (arith, b.writes_le, b.rows_le)
