-- ===== src/Approvers/Chain.antt =====
-- `chain` and `resolve` (src/hrmosaic/mcpserver/approvers.py): whom a walk up the managers meets, and
-- who can be named as the holder of a role.
use quantic_mosaic.Prelude.{
  ℕ, zero, suc, ◌≤◌, ◌≡◌, ◌≢◌, refl, sym, ap, ◌∙◌, inl, inr, Bool, true, false, ◌||◌, Option, none,
  some, List, [], ◌∷◌, String, str_eq, eq_iff, eq_refl, lookup, member, length, arith, Bool-cases,
  Option-cases, All,
}
use mathlib.Core.Bool.{false≢true}
use quantic_mosaic.Approvers.{
  Employee, Approver, Tables, Kind, manager, director, vp, max_depth, next_row, manager_id, climb,
  chain, bare, held_by, routed_up, first_row, first_holder, holds, resolve_titled, resolve_kind,
  of_kind, resolve, kind_of,
}

-- Every row of the table stands under its own id.
abbrev pub KeyedById : List (String × Employee) → Type 0
KeyedById [] = Unit
KeyedById ((key, row) ∷ rows) = (row.employee_id ≡ key) × KeyedById rows

lookup-keyed :
    (id : String) (rows : List (String × Employee)) (row : Employee)
    → KeyedById rows
    → lookup id rows ≡ some row
    → row.employee_id ≡ id
lookup-keyed id [] row h e = cc
lookup-keyed id ((key, r) ∷ rows) row h e = elim (Bool-cases (str_eq key id)) [
  | inl k ↦
      let same : r ≡ row = cc (rw k at e) in
      ap (λ r. r.employee_id) (sym same) ∙ h.0 ∙ (eq_iff key id).0 k
  | inr k ↦ lookup-keyed id rows row h.1 (rw k at e)
]

-- A walk up: each row is the table's row of the manager of the id before it.
pub data Climbs (tables : Tables) : String → List Employee → Type 0 where
  stop : {id : String} → Climbs tables id []
  up :
      {id next : String} {row : Employee} {rows : List Employee}
      → manager_id tables id ≡ some next
      → lookup next tables.employees ≡ some row
      → Climbs tables next rows
      → Climbs tables id (row ∷ rows)

-- No row is of an id that was seen, and no two rows are of the same id.
abbrev pub Fresh : List String → List Employee → Type 0
Fresh seen [] = Unit
Fresh seen (row ∷ rows) =
    (member row.employee_id seen ≡ false) × Fresh (row.employee_id ∷ seen) rows

module _ (tables : Tables) where
  climb-stop :
      (depth : ℕ) (seen : List String) (current : String)
      → next_row tables seen current ≡ none
      → climb tables (suc depth) seen (some current) ≡ []
  unfolding climb
  climb-stop depth seen current e = rw e

  climb-up :
      (depth : ℕ) (seen : List String) (current : String) (row : Employee)
      → next_row tables seen current ≡ some row
      → climb tables (suc depth) seen (some current)
        ≡ row ∷ climb tables depth (current ∷ seen) (manager_id tables current)
  unfolding climb
  climb-up depth seen current row e = rw e

  climb-length :
      (depth : ℕ) (seen : List String) (current : Option String)
      → length (climb tables depth seen current) ≤ depth
  unfolding climb
  climb-length zero seen current = omega arith
  climb-length (suc depth) seen none = omega arith
  climb-length (suc depth) seen (some current) =
      elim (Option-cases (next_row tables seen current)) [
        | inl e ↦ rw (climb-stop depth seen current e) (omega arith)
        | inr (row, e) ↦
            rw (climb-up depth seen current row e)
              (omega (arith, climb-length depth (current ∷ seen) (manager_id tables current)))
      ]

  -- What lets the walk go on.
  found-inverted :
      (seen : List String) (current : String) (row : Employee)
      → next_row tables seen current ≡ some row
      → (member current seen ≡ false) × (lookup current tables.employees ≡ some row)
  found-inverted seen current row h = elim (Bool-cases (str_eq current "" || member current seen)) [
    | inl e ↦ cc (rw e at h)
    | inr e ↦ (ground (arith, e), rw e at h)
  ]

  climb-Climbs :
      (id : String) (depth : ℕ) (seen : List String) (current : Option String)
      → manager_id tables id ≡ current
      → Climbs tables id (climb tables depth seen current)
  unfolding climb
  climb-Climbs id zero seen current h = Climbs.stop
  climb-Climbs id (suc depth) seen none h = Climbs.stop
  climb-Climbs id (suc depth) seen (some current) h =
      elim (Option-cases (next_row tables seen current)) [
        | inl e ↦ rw (climb-stop depth seen current e) Climbs.stop
        | inr (row, e) ↦ rw (climb-up depth seen current row e) (
            Climbs.up h (found-inverted seen current row e).1
              (climb-Climbs current depth (current ∷ seen) (manager_id tables current) refl))
      ]

  climb-Fresh :
      (depth : ℕ) (seen : List String) (current : Option String)
      → KeyedById tables.employees
      → Fresh seen (climb tables depth seen current)
  unfolding climb
  climb-Fresh zero seen current k = tt
  climb-Fresh (suc depth) seen none k = tt
  climb-Fresh (suc depth) seen (some current) k =
      elim (Option-cases (next_row tables seen current)) [
        | inl e ↦ rw (climb-stop depth seen current e) tt
        | inr (row, e) ↦
            let (unseen, found) = found-inverted seen current row e in
            let same = lookup-keyed current tables.employees row k found in
            rw (climb-up depth seen current row e) (
              rw same unseen,
              rw same (climb-Fresh depth (current ∷ seen) (manager_id tables current) k),
            )
      ]

  -- Where every row of the employee table stands under its own id, the chain of a person is a walk up
  -- the managers of at most six rows, none of them that person's and no two of the same person,
  -- whatever cycles the managers have.
  pub chain-IsWalk :
      (employee_id : String)
      → KeyedById tables.employees
      → Climbs tables employee_id (chain tables employee_id)
        × (length (chain tables employee_id) ≤ max_depth)
        × Fresh (employee_id ∷ []) (chain tables employee_id)
  unfolding chain
  chain-IsWalk id k = (
    climb-Climbs id max_depth (id ∷ []) (manager_id tables id) refl,
    climb-length max_depth (id ∷ []) (manager_id tables id),
    climb-Fresh max_depth (id ∷ []) (manager_id tables id) k,
  )

-- No row of the list is of this person.
abbrev Others : String → List Employee → Type 0
Others id rows = All (λ row. str_eq row.employee_id id ≡ false) rows

Fresh-Others :
    (id : String) (seen : List String) (rows : List Employee)
    → member id seen ≡ true
    → Fresh seen rows
    → Others id rows
Fresh-Others id seen [] m h = tt
Fresh-Others id seen (row ∷ rows) m (unseen, rest) = (
  differs row.employee_id m unseen,
  Fresh-Others id (row.employee_id ∷ seen) rows (ground (arith, m)) rest,
)
  where
    differs :
        (other : String)
        → member id seen ≡ true
        → member other seen ≡ false
        → str_eq other id ≡ false
    differs other m u = elim (Bool-cases (str_eq other id)) [
      | inl e ↦ let same : other ≡ id = (eq_iff other id).0 e in cc (rw same at u)
      | inr e ↦ e
    ]

abbrev NotNamed : String → Approver → Type 0
NotNamed id approver =
    (named : String) → approver.employee_id ≡ some named → str_eq named id ≡ false

held-NotNamed :
    (id role : String) (rows : List Employee) (o : Option Employee)
    → ((row : Employee) → o ≡ some row → str_eq row.employee_id id ≡ false)
    → NotNamed id (held_by role o)
unfolding held_by bare
held-NotNamed id role rows none h named e = cc e
held-NotNamed id role rows (some row) h named e =
    let same : row.employee_id ≡ named = cc e in rw same at (h row refl)

first_row-Others :
    (id : String) (rows : List Employee)
    → Others id rows
    → (row : Employee) → first_row rows ≡ some row
    → str_eq row.employee_id id ≡ false
unfolding first_row
first_row-Others id [] h row e = cc e
first_row-Others id (r ∷ rows) h row e = let same : r ≡ row = cc e in rw same at h.0

first_holder-Others :
    (tables : Tables) (kind : Kind) (id : String) (rows : List Employee)
    → Others id rows
    → (row : Employee) → first_holder tables kind rows ≡ some row
    → str_eq row.employee_id id ≡ false
unfolding first_holder
first_holder-Others tables kind id [] h row e = cc e
first_holder-Others tables kind id (r ∷ rows) h row e =
    elim (Bool-cases (holds tables r.title kind)) [
      | inl y ↦ let same : r ≡ row = cc (rw y at e) in rw same at h.0
      | inr n ↦ first_holder-Others tables kind id rows h.1 row (rw n at e)
    ]

module _ (tables : Tables) (actor_id role : String)
    (others : Others actor_id (chain tables actor_id)) where
  first-NotNamed : NotNamed actor_id (held_by role (first_row (chain tables actor_id)))
  first-NotNamed = held-NotNamed actor_id role [] _ (first_row-Others actor_id _ others)

  titled-NotNamed :
      (kind : Kind) (b : Bool) → NotNamed actor_id (resolve_titled tables actor_id role kind b)
  unfolding resolve_titled routed_up
  titled-NotNamed kind true named e = first-NotNamed named e
  titled-NotNamed kind false named e =
      held-NotNamed actor_id role [] _ (first_holder-Others tables kind actor_id _ others) named e

  kind-NotNamed : (kind : Option Kind) → NotNamed actor_id (resolve_kind tables actor_id role kind)
  unfolding resolve_kind bare
  kind-NotNamed none named e = cc e
  kind-NotNamed (some manager) named e = first-NotNamed named e
  kind-NotNamed (some director) named e = titled-NotNamed director _ named e
  kind-NotNamed (some vp) named e = titled-NotNamed vp _ named e

-- Where every row of the employee table stands under its own id, no role is resolved to the person who
-- asks: nobody approves their own request.
pub resolve_never_self :
    (tables : Tables) (actor_id role : String) (approver : Approver) (named : String)
    → KeyedById tables.employees
    → resolve tables actor_id role ≡ some approver
    → approver.employee_id ≡ some named
    → named ≢ actor_id
unfolding resolve
resolve_never_self tables actor_id role approver named k h n same =
    elim (Option-cases (kind_of tables role)) [
      | inl e ↦ cc (sym h ∙ ap (of_kind (resolve_kind tables actor_id role)) e)
      | inr (kind, e) ↦
          let (_, _, fresh) = chain-IsWalk tables actor_id k in
          let others =
            Fresh-Others actor_id (actor_id ∷ []) (chain tables actor_id) (rw (eq_refl actor_id))
              fresh in
          let found : resolve_kind tables actor_id role kind ≡ approver =
            cc (sym h ∙ ap (of_kind (resolve_kind tables actor_id role)) e) in
          false≢true (
            sym (
              kind-NotNamed tables actor_id role others kind named
                (ap (λ a. a.employee_id) found ∙ n))
            ∙ (eq_iff named actor_id).1 same)
    ]
