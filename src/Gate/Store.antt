-- ===== src/Gate/Store.antt =====
-- The tables `confirmations` and `mock_writes` (src/hrmosaic/core/migrations/001_initial.sql) with
-- the statements that src/hrmosaic/mcpserver/confirm.py runs on them.
use quantic_mosaic.Prelude.{
  ℕ, ◌+◌, max, Bool, true, false, ◌&&◌, Option, none, some, List, [], ◌∷◌, String, str_eq, map,
  if◌then◌else◌,
}

pub record Confirmation : Type 0 where
  pub token : String
  pub session_id : String
  pub turn_id : String
  pub span_id : String
  pub tool_name : String
  pub arguments_json : String
  pub human_summary : String
  pub created_at : ℕ
  pub expires_at : ℕ
  pub used_at : Option ℕ
  pub user_response : String

pub record MockWrite : Type 0 where
  pub rowid : ℕ
  pub id : String
  pub kind : String
  pub created_at : ℕ
  pub session_id : String
  pub turn_id : String
  pub span_id : String
  pub employee_id : String
  pub payload_json : String
  pub confirmation_token : String

pub record Store : Type 0 where
  pub confirmations : List Confirmation
  pub mock_writes : List MockWrite

-- `SELECT … FROM confirmations WHERE token = ?`, its one row.
unfoldable pub find : String → List Confirmation → Option Confirmation
find token [] = none
find token (c ∷ cs) = let rest = find token cs in if str_eq c.token token then some c else rest

abbrev pub is_unspent : Confirmation → Bool
is_unspent c = elim c.used_at [ none ↦ true | some _ ↦ false ]

-- `UPDATE confirmations SET used_at = ? WHERE token = ? AND used_at IS NULL`, for one row.
abbrev pub spend_row : ℕ → String → Confirmation → Confirmation
spend_row now token c =
    if str_eq c.token token && is_unspent c then record c { used_at = some now } else c

unfoldable pub spend : ℕ → String → List Confirmation → List Confirmation
spend now token cs = map (spend_row now token) cs

abbrev pub one_if : Bool → ℕ
one_if b = if b then 1 else 0

-- The rows that the `UPDATE` affects, the rows of a token, and the writes of a token.
unfoldable pub unspent_of : String → List Confirmation → ℕ
unspent_of token [] = 0
unspent_of token (c ∷ cs) = one_if (str_eq c.token token && is_unspent c) + unspent_of token cs

unfoldable pub rows_of : String → List Confirmation → ℕ
rows_of token [] = 0
rows_of token (c ∷ cs) = one_if (str_eq c.token token) + rows_of token cs

unfoldable pub writes_of : String → List MockWrite → ℕ
writes_of token [] = 0
writes_of token (w ∷ ws) = one_if (str_eq w.confirmation_token token) + writes_of token ws

-- `COALESCE(MAX(rowid), 0)`.
unfoldable pub max_rowid : List MockWrite → ℕ
max_rowid [] = 0
max_rowid (w ∷ ws) = max w.rowid (max_rowid ws)

-- `SELECT id FROM mock_writes WHERE confirmation_token = ?`, its first row.
unfoldable pub find_write : String → List MockWrite → Option String
find_write token [] = none
find_write token (w ∷ ws) =
    let rest = find_write token ws in if str_eq w.confirmation_token token then some w.id else rest
