-- ===== src/Tests/People.antt =====
-- Approvers, the windows of a text and the turns of a session on small inputs.
use quantic_mosaic.Prelude.{
  ℕ, ◌≤◌, ◌≡◌, ◌≢◌, refl, false, none, some, List, [], ◌∷◌, String, map, length, lookup, arith,
}
use quantic_mosaic.Prelude.Int.{pos}
use quantic_mosaic.Rules.Value.{int}
use quantic_mosaic.Approvers.{Approver, Tables, max_depth, chain, resolve, resolve_all}
use quantic_mosaic.Approvers.Chain.{Climbs, Fresh, chain-IsWalk, resolve_never_self}
use quantic_mosaic.Approvers.Roles.{distinct_after, resolve_all-roles}
use quantic_mosaic.Windows.{Codes, Limits, spans}
use quantic_mosaic.Windows.Cover.{Tiles, spans-Tiles}
use quantic_mosaic.Session.Filed.{IsLast, performed_write-IsLast}
use quantic_mosaic.Session.Recent.{Tables as RecentTables, recent}
use quantic_mosaic.Session.Recent.Order.{Rises, recent-Rises}
use quantic_mosaic.Session.{
  PriorTurn, inherited_slots, latest_value, performed_write, inherited_slots-latest,
}

-- Two people who manage each other.
abbrev tables : Tables
tables = record {
  employees =
      ("E1", record { employee_id = "E1"; preferred_name = "Ada"; title = some "engineer" })
      ∷ (
        "E2",
        record { employee_id = "E2"; preferred_name = "Bo"; title = some "director of design" },
      )
      ∷ [];
  managers = ("E1", some "E2") ∷ ("E2", some "E1") ∷ [];
  casefold = λ s. s;
}

chain-IsWalk_example :
    Climbs tables "E1" (chain tables "E1")
    × (length (chain tables "E1") ≤ max_depth)
    × Fresh ("E1" ∷ []) (chain tables "E1")
chain-IsWalk_example = chain-IsWalk tables "E1" (refl, (refl, tt))

abbrev director_of_e1 : Approver
director_of_e1 = record {
  role = "director";
  employee_id = some "E2";
  name = some "Bo";
  title = some "director of design";
  self_approval_routed = false;
  reason = none;
}

resolves : resolve tables "E1" "director" ≡ some director_of_e1
unfolding resolve
resolves = refl

resolve_never_self_example : ◌≢◌ {A = String} "E2" "E1"
resolve_never_self_example =
    resolve_never_self tables "E1" "director" director_of_e1 "E2" (refl, (refl, tt)) resolves refl

resolves_all : resolve_all tables "E1" ("director" ∷ "director" ∷ []) ≡ some (director_of_e1 ∷ [])
unfolding resolve_all
resolves_all = refl

resolve_all-roles_example :
    map (λ (a : Approver). a.role) (director_of_e1 ∷ [])
    ≡ distinct_after [] ("director" ∷ "director" ∷ [])
resolve_all-roles_example =
    resolve_all-roles tables "E1" ("director" ∷ "director" ∷ []) (director_of_e1 ∷ []) resolves_all

-- "Ab. cd. ef"
abbrev leaf : Codes
leaf = 65 ∷ 98 ∷ 46 ∷ 32 ∷ 99 ∷ 100 ∷ 46 ∷ 32 ∷ 101 ∷ 102 ∷ []

abbrev limits : Limits
limits = record { max_chars = 4; window_chars = 5; overlap_chars = 2; min_chars = 2 }

cuts : spans limits leaf ≡ some ((0, 3) ∷ (1, 6) ∷ (4, 10) ∷ [])
unfolding spans
cuts = refl

spans-Tiles_example :
    (found : List (ℕ × ℕ)) × (spans limits leaf ≡ some found) × Tiles (length leaf) 0 found
spans-Tiles_example = spans-Tiles limits leaf (omega arith) (omega arith)

abbrev asked : PriorTurn
asked = record {
  seq = 1;
  question = "PTO?";
  outcome = "answered";
  workflow = some "pto";
  slots = ("days", int (pos 3)) ∷ [];
  write_id = some "MOCK-HR-000013";
  write_tool = none;
  write_summary = none;
}

abbrev extended : PriorTurn
extended = record asked { seq = 2; slots = ("days", int (pos 5)) ∷ []; write_id = none }

inherited_slots-latest_example :
    lookup "days" (inherited_slots (asked ∷ extended ∷ []))
    ≡ latest_value "days" (asked ∷ extended ∷ [])
inherited_slots-latest_example =
    inherited_slots-latest "days" (asked ∷ extended ∷ []) ((refl, tt), ((refl, tt), tt))

performed_write-IsLast_example :
    IsLast (asked ∷ extended ∷ []) (performed_write (asked ∷ extended ∷ []))
performed_write-IsLast_example = performed_write-IsLast (asked ∷ extended ∷ [])

abbrev rows : RecentTables
rows = record {
  turns =
      record {
        id = "t1";
        session_id = "s";
        seq = 2;
        user_message = some "PTO?";
        outcome = some "answered";
        workflow = none;
      }
      ∷ record {
        id = "t0";
        session_id = "s";
        seq = 1;
        user_message = some "Hello";
        outcome = some "answered";
        workflow = none;
      }
      ∷ record {
        id = "t2";
        session_id = "s";
        seq = 3;
        user_message = some "Now?";
        outcome = none;
        workflow = none;
      }
      ∷ [];
  spans =
      record {
        turn_id = "t1";
        seq = 1;
        tool_name = some "check_pto_balance";
        arguments = ("days", int (pos 3)) ∷ [];
        parameters = [];
        ticket_id = none;
        draft_id = none;
      }
      ∷ [];
  float_repr = λ x. "0.5";
}

reads_back : map (λ (t : PriorTurn). t.question) (recent rows "s" 3) ≡ "Hello" ∷ "PTO?" ∷ []
unfolding recent
reads_back = refl

recent-Rises_example :
    (length (recent rows "s" 1) ≤ 1) × Rises (λ (turn : PriorTurn). turn.seq) 0 (recent rows "s" 1)
recent-Rises_example = recent-Rises rows "s" 1
