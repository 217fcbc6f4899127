-- ===== src/Session/Filed.antt =====
-- The write that a session has made (`performed_write`, src/hrmosaic/agent/session.py), against the
-- turns one by one.
use quantic_mosaic.Prelude.{
  ◌≡◌, refl, ap, ◌⊎◌, inl, inr, Option, none, some, List, [], ◌∷◌, ◌++◌, String, str_eq, eq_iff,
  All, Bool-cases,
}
use quantic_mosaic.Session.{
  PriorTurn, Write, filled, or_text, write_of, performed_from, performed_write,
}

-- A text that is missing or empty.
abbrev pub IsBlank : Option String → Type 0
IsBlank given = (given ≡ none) ⊎ (given ≡ some "")

-- A text that is given, and not empty.
abbrev pub IsGiven : Option String → String → Type 0
IsGiven given s = (given ≡ some s) × ¬ (s ≡ "")

-- The text that is given, or the default where none is.
abbrev pub IsOr : Option String → String → String → Type 0
IsOr given default s = IsGiven given s ⊎ (IsBlank given × (s ≡ default))

-- What the write that a turn filed says.
pub record IsFiledBy (turn : PriorTurn) (w : Write) : Type 0 where
  pub id : IsGiven turn.write_id w.write_id
  pub tool : IsOr turn.write_tool "create_mock_hr_ticket" w.tool
  pub summary : IsOr turn.write_summary "" w.summary
  pub workflow : w.workflow ≡ turn.workflow
  pub slots : w.slots ≡ turn.slots

-- No turn of a list filed a write.
abbrev pub NoneFiled : List PriorTurn → Type 0
NoneFiled turns = All (λ turn. IsBlank turn.write_id) turns

-- The last turn that filed a write is the one that is found, where there is one.
pub data IsLast : List PriorTurn → Option Write → Type 0 where
  nothing : {turns : List PriorTurn} → NoneFiled turns → IsLast turns none
  last :
      (before : List PriorTurn) (turn : PriorTurn) (after : List PriorTurn) {w : Write}
      → IsFiledBy turn w
      → NoneFiled after
      → IsLast (before ++ turn ∷ after) (some w)

filled-cases :
    (given : Option String)
    → (IsBlank given × (filled given ≡ none))
      ⊎ ((s : String) × IsGiven given s × (filled given ≡ some s))
unfolding filled
filled-cases none = inl (inl refl, refl)
filled-cases (some s) = elim (Bool-cases (str_eq s "")) [
  | inl e ↦ inl (inr (ap some ((eq_iff s "").0 e)), rw e refl)
  | inr e ↦ inr (s, (refl, λ q. cc (rw e at (eq_iff s "").1 q)), rw e refl)
]

or_text-IsOr :
    (default : String) (given : Option String) → IsOr given default (or_text default (filled given))
unfolding or_text
or_text-IsOr default given = elim (filled-cases given) [
  | inl (blank, e) ↦ rw e (inr (blank, refl))
  | inr (s, is_given, e) ↦ rw e (inl is_given)
]

write_of-IsFiledBy :
    (turn : PriorTurn) (id : String) → IsGiven turn.write_id id → IsFiledBy turn (write_of turn id)
unfolding write_of
write_of-IsFiledBy turn id h = record {
  id = h;
  tool = or_text-IsOr "create_mock_hr_ticket" turn.write_tool;
  summary = or_text-IsOr "" turn.write_summary;
  workflow = refl;
  slots = refl;
}

-- A fold over turns keeps what was found, or finds the write of the last turn that filed one.
abbrev Finds : List PriorTurn → Option Write → Type 0
Finds turns found =
    (NoneFiled turns × (performed_from found turns ≡ found))
    ⊎ ((w : Write) × IsLast turns (some w) × (performed_from found turns ≡ some w))

IsLast-cons :
    (turn : PriorTurn) {turns : List PriorTurn} {w : Write}
    → IsLast turns (some w)
    → IsLast (turn ∷ turns) (some w)
IsLast-cons turn (last before t after filed none_after) =
    last (turn ∷ before) t after filed none_after

performed_from-Finds : (turns : List PriorTurn) (found : Option Write) → Finds turns found
unfolding performed_from
performed_from-Finds [] found = inl (tt, refl)
performed_from-Finds (turn ∷ turns) found = elim (filled-cases turn.write_id) [
  | inl (blank, e) ↦ elim (performed_from-Finds turns found) [
    | inl (none_filed, same) ↦ inl ((blank, none_filed), rw e same)
    | inr (w, is_last, finds) ↦ inr (w, IsLast-cons turn is_last, rw e finds)
  ]
  | inr (id, is_given, e) ↦ elim (performed_from-Finds turns (some (write_of turn id))) [
    | inl (none_filed, same) ↦ inr (
      write_of turn id,
      last [] turn turns (write_of-IsFiledBy turn id is_given) none_filed,
      rw e same,
    )
    | inr (w, is_last, finds) ↦ inr (w, IsLast-cons turn is_last, rw e finds)
  ]
]

-- The write that a session has made is that of the last turn whose write id is given and not empty,
-- with that id, that turn's workflow and slots, its tool or the default and its summary or the empty
-- text; where none is found, no turn filed one.
pub performed_write-IsLast : (turns : List PriorTurn) → IsLast turns (performed_write turns)
unfolding performed_write
performed_write-IsLast turns = elim (performed_from-Finds turns none) [
  | inl (none_filed, e) ↦ rw e (nothing none_filed)
  | inr (w, is_last, e) ↦ rw e is_last
]
