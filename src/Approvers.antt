-- ===== src/Approvers.antt =====
-- The approvers of a request (src/hrmosaic/mcpserver/approvers.py): the managers above a person, and
-- the person who holds each approval role. `str.casefold` is the interpreter's, and is an argument;
-- `employees` and `managers` are the two tables, keyed by employee id.
pub mod Chain
pub mod Roles
use Prim.Native.Char.{code}
use quantic_mosaic.Prelude.{
  ℕ, zero, suc, Bool, true, false, not, ◌&&◌, ◌||◌, Option, none, some, List, [], ◌∷◌, ◌++◌, String,
  str_eq, lookup, member, any, contains, if◌then◌else◌,
}
use quantic_mosaic.Rules.Print.{is_space, lstrip}

-- A row of the employee table has the three keys that the source indexes; its title may be null.
pub record Employee : Type 0 where
  pub employee_id : String
  pub preferred_name : String
  pub title : Option String

pub record Approver : Type 0 where
  pub role : String
  pub employee_id : Option String
  pub name : Option String
  pub title : Option String
  pub self_approval_routed : Bool
  pub reason : Option String

pub record Tables : Type 0 where
  pub employees : List (String × Employee)
  pub managers : List (String × Option String)
  pub casefold : String → String

abbrev self_approval_sentence : String
self_approval_sentence =
    "Nobody approves their own request, and nobody approves a request from a person who approves theirs. Where the matrix would produce that outcome, the request routes one level higher automatically."

abbrev pub max_depth : ℕ
max_depth = 6

pub data Kind : Type 0 where
  manager director vp : Kind

up_to_space : String → String
unfolding is_space
up_to_space String.[] = ""
up_to_space (String.◌∷◌ c s) =
    let rest = up_to_space s in if is_space (code c) then "" else String.◌∷◌ c rest

-- `text.split()[0]`, or none where the text is blank and Python raises `IndexError`.
first_word : String → Option String
unfolding lstrip up_to_space
first_word s = let t = lstrip s in if str_eq t "" then none else some (up_to_space t)

-- `_kind`: none where it raises, and otherwise the kind that the role asks for, if any.
kind_of_folded : String → Option (Option Kind)
unfolding contains first_word
kind_of_folded lowered =
    if contains "manager" lowered && not (contains "business partner" lowered)
    then some (some manager)
    else if contains "director" lowered
    then some (some director)
    else if contains "vice president" lowered
    then some (some vp)
    else elim (first_word lowered) [
      | none ↦ none
      | some word ↦ some (if str_eq word "vp" then some vp else none)
    ]

unfoldable pub kind_of : Tables → String → Option (Option Kind)
unfolding kind_of_folded
kind_of tables role = kind_of_folded (tables.casefold role)

title_words : Kind → List String
title_words manager = []
title_words director = "director" ∷ []
title_words vp = "vp" ∷ "vice president" ∷ "chief" ∷ []

text_or_empty : Option String → String
text_or_empty none = ""
text_or_empty (some s) = s

unfoldable pub holds : Tables → Option String → Kind → Bool
unfolding title_words contains text_or_empty
holds tables title kind =
    any (λ word. contains word (tables.casefold (text_or_empty title))) (title_words kind)

-- `managers.get(id)`.
manager_of : Option (Option String) → Option String
manager_of none = none
manager_of (some m) = m

unfoldable pub manager_id : Tables → String → Option String
unfolding manager_of
manager_id tables id = manager_of (lookup id tables.managers)

-- The row of the next manager, where the walk goes on.
abbrev pub next_row : Tables → List String → String → Option Employee
next_row tables seen current =
    if str_eq current "" || member current seen then none else lookup current tables.employees

-- One round: the walk ends, or its row is appended before the rest.
abbrev pub go_on : List Employee → Option Employee → List Employee
go_on rest none = []
go_on rest (some row) = row ∷ rest

-- The loop of `chain`, with what is left of `MAX_DEPTH`.
unfoldable pub climb : Tables → ℕ → List String → Option String → List Employee
unfolding manager_id
climb tables zero seen current = []
climb tables (suc depth) seen none = []
climb tables (suc depth) seen (some current) =
    go_on (climb tables depth (current ∷ seen) (manager_id tables current))
      (next_row tables seen current)

unfoldable pub chain : Tables → String → List Employee
unfolding climb
chain tables employee_id = climb tables max_depth (employee_id ∷ []) (manager_id tables employee_id)

unfoldable pub bare : String → Approver
bare role = record {
  role = role;
  employee_id = none;
  name = none;
  title = none;
  self_approval_routed = false;
  reason = none;
}

-- `str` of a title that may be null in its row.
title_text : Option String → String
title_text none = "None"
title_text (some s) = s

unfoldable pub held_by : String → Option Employee → Approver
unfolding bare title_text
held_by role none = bare role
held_by role (some row) = record {
  role = role;
  employee_id = some row.employee_id;
  name = some row.preferred_name;
  title = some (title_text row.title);
  self_approval_routed = false;
  reason = none;
}

-- The reader holds the role: the approval goes one level up.
unfoldable pub routed_up : String → Option Employee → Approver
unfolding held_by
routed_up role row = record (held_by role row) {
  self_approval_routed = true;
  reason = some self_approval_sentence;
}

unfoldable pub first_row : List Employee → Option Employee
first_row [] = none
first_row (row ∷ rows) = some row

-- `next((row for row in above if _holds(row.get("title"), kind)), None)`.
unfoldable pub first_holder : Tables → Kind → List Employee → Option Employee
unfolding holds
first_holder tables kind [] = none
first_holder tables kind (row ∷ rows) =
    let rest = first_holder tables kind rows in
    if holds tables row.title kind then some row else rest

unfoldable pub title_of : Option Employee → Option String
title_of none = none
title_of (some row) = row.title

unfoldable pub resolve_titled : Tables → String → String → Kind → Bool → Approver
unfolding chain held_by routed_up first_row first_holder
resolve_titled tables actor_id role kind true = routed_up role (first_row (chain tables actor_id))
resolve_titled tables actor_id role kind false =
    held_by role (first_holder tables kind (chain tables actor_id))

unfoldable pub resolve_kind : Tables → String → String → Option Kind → Approver
unfolding chain held_by bare first_row title_of holds resolve_titled
resolve_kind tables actor_id role none = bare role
resolve_kind tables actor_id role (some manager) = held_by role (first_row (chain tables actor_id))
resolve_kind tables actor_id role (some kind) =
    resolve_titled tables actor_id role kind
      (holds tables (title_of (lookup actor_id tables.employees)) kind)

abbrev pub of_kind : (Option Kind → Approver) → Option (Option Kind) → Option Approver
of_kind f none = none
of_kind f (some kind) = some (f kind)

-- None where `_kind` raises.
unfoldable pub resolve : Tables → String → String → Option Approver
unfolding resolve_kind kind_of
resolve tables actor_id role = of_kind (resolve_kind tables actor_id role) (kind_of tables role)

-- The rest of the loop, after the role that was resolved.
abbrev pub go_with : (Approver → Option (List Approver)) → Option Approver → Option (List Approver)
go_with rest none = none
go_with rest (some approver) = rest approver

-- The loop of `resolve_all`, after the roles that are resolved already.
unfoldable pub resolve_after :
    Tables → String → List Approver → List String → Option (List Approver)
unfolding resolve
resolve_after tables actor_id resolved [] = some resolved
resolve_after tables actor_id resolved (role ∷ roles) =
    if any (λ (entry : Approver). str_eq entry.role role) resolved
    then resolve_after tables actor_id resolved roles
    else go_with (λ approver. resolve_after tables actor_id (resolved ++ approver ∷ []) roles)
        (resolve tables actor_id role)

unfoldable pub resolve_all : Tables → String → List String → Option (List Approver)
unfolding resolve_after
resolve_all tables actor_id roles = resolve_after tables actor_id [] roles
