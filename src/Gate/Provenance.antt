-- ===== src/Gate/Provenance.antt =====
-- Where the mock writes of the gate come from (src/hrmosaic/mcpserver/confirm.py): the confirmation
-- row behind each of them, over every order of calls.
use quantic_mosaic.Prelude.{
  ℕ, ◌≡◌, sym, ap, ◌∙◌, inl, inr, true, false, ◌&&◌, none, some, List, [], ◌∷◌, String, str_eq,
  eq_iff, arith, Bool-cases, Any, All, All-map, All-append, Any-append_left, Any-map, Any-map_list,
}
use mathlib.Core.Path.{subst}
use quantic_mosaic.Gate.Store.{Confirmation, MockWrite, Store, is_unspent, spend_row, spend, find}
use quantic_mosaic.Gate.Confirm.{
  Arguments, Json, insert_confirmation, spent_store, written_store, write_of,
}
use quantic_mosaic.Gate.Checks.{validate_iff}
use quantic_mosaic.Gate.SingleUse.{
  Gate, Step, Reachable, consumed_store, consumed-cases, insert-inverted,
}

-- The row of a confirmation, which differs from it at most in `used_at`.
abbrev pub IsRow : Confirmation → Confirmation → Type 0
IsRow c row = record row { used_at = none } ≡ record c { used_at = none }

-- The row that a write refers to: confirmed, used, and of the same turn.
pub record Authorises (w : MockWrite) (row : Confirmation) : Type 0 where
  pub same_token : row.token ≡ w.confirmation_token
  pub same_session : row.session_id ≡ w.session_id
  pub same_turn : row.turn_id ≡ w.turn_id
  pub same_span : row.span_id ≡ w.span_id
  pub confirmed : row.user_response ≡ "confirmed"
  pub used : is_unspent row ≡ false

abbrev Held : Store → Confirmation → Type 0
Held store c = (c.user_response ≡ "confirmed") × Any (IsRow c) store.confirmations

record Sound (gate : Gate) : Type 0 where
  validated_held : All (Held gate.store) gate.validated
  writes_authorised : All (λ w. Any (Authorises w) gate.store.confirmations) gate.store.mock_writes

spend-IsRow :
    (now : ℕ) (token : String) (c row : Confirmation)
    → IsRow c row
    → IsRow c (spend_row now token row)
spend-IsRow now token c row h = elim (Bool-cases (str_eq row.token token && is_unspent row)) [
  | inl e ↦ rw e h
  | inr e ↦ rw e h
]

spend-Authorises :
    (now : ℕ) (token : String) (w : MockWrite) (row : Confirmation)
    → Authorises w row
    → Authorises w (spend_row now token row)
spend-Authorises now token w row h = elim (Bool-cases (str_eq row.token token)) [
  | inl e ↦ rw (e, h.used) h
  | inr e ↦ rw e h
]

Any-spend :
    (P Q : Confirmation → Type 0) (now : ℕ) (token : String) (cs : List Confirmation)
    → ((row : Confirmation) → P row → Q (spend_row now token row))
    → Any P cs
    → Any Q (spend now token cs)
unfolding spend
Any-spend P Q now token cs f h = Any-map_list Q _ cs (Any-map cs f h)

-- The row of the token that was spent is used.
spent-row :
    (now : ℕ) (c row : Confirmation) → IsRow c row → is_unspent (spend_row now c.token row) ≡ false
spent-row now c row h =
    let t : row.token ≡ c.token = ap (λ r. r.token) h in
    let s : str_eq row.token c.token ≡ true = (eq_iff row.token c.token).1 t in ground (arith, s)

find-Any :
    (token : String) (cs : List Confirmation) (c : Confirmation)
    → find token cs ≡ some c
    → Any (IsRow c) cs
unfolding find
find-Any token [] c h = cc
find-Any token (d ∷ cs) c h = elim (Bool-cases (str_eq d.token token)) [
  | inl e ↦
      let same : d ≡ c = cc (rw e at h) in
      inl (ap {A = Confirmation} {B = Confirmation} (λ d. record d { used_at = none }) same)
  | inr e ↦ inr (find-Any token cs c (rw e at h))
]

of_validated :
    (P : Confirmation → Type 0) (c : Confirmation) (vs : List Confirmation)
    → Any (λ v. v ≡ c) vs
    → All P vs
    → P c
of_validated P c [] h k = elim h [ ]
of_validated P c (v ∷ vs) (inl e) k = subst P e k.0
of_validated P c (v ∷ vs) (inr h) k = of_validated P c vs h k.1

module _ (now : ℕ) (token : String) (store : Store) where
  spent-Held : (c : Confirmation) → Held store c → Held (spent_store store token now) c
  unfolding spent_store
  spent-Held c (confirmed, row) =
      (confirmed, Any-spend (IsRow c) _ now token store.confirmations (spend-IsRow now token c) row)

  spent-Sound :
      (vs : List Confirmation)
      → Sound (record { store = store; validated = vs })
      → Sound (record { store = spent_store store token now; validated = vs })
  unfolding spent_store
  spent-Sound vs h = record {
    validated_held = All-map vs (λ c. spent-Held c) h.validated_held;
    writes_authorised =
        All-map store.mock_writes
          (λ w.
            Any-spend (Authorises w) _ now token store.confirmations (spend-Authorises now token w))
          h.writes_authorised;
  }

-- The new write refers to the row of its confirmation.
written-row :
    (json : Json) (store : Store) (c : Confirmation) (kind prefix employee_id : String)
    (payload : Arguments) (now : ℕ) (row : Confirmation)
    → c.user_response ≡ "confirmed"
    → IsRow c row
    → Authorises
        (write_of json (spent_store store c.token now) c kind prefix employee_id payload now)
        (spend_row now c.token row)
unfolding write_of
written-row json store c kind prefix employee_id payload now row confirmed h =
    let same = spend-IsRow now c.token c row h in
    record {
      same_token = ap (λ r. r.token) same;
      same_session = ap (λ r. r.session_id) same;
      same_turn = ap (λ r. r.turn_id) same;
      same_span = ap (λ r. r.span_id) same;
      confirmed = ap (λ r. r.user_response) same ∙ confirmed;
      used = spent-row now c row h;
    }

module _ (json : Json) (c : Confirmation) (kind prefix employee_id : String) (payload : Arguments)
    (now : ℕ) where
  consumed-Sound :
      (gate : Gate)
      → Any (λ v. v ≡ c) gate.validated
      → Sound gate
      → Sound (record gate {
        store = consumed_store json gate.store c kind prefix employee_id payload now;
      })
  unfolding spent_store written_store
  consumed-Sound gate v h =
      let spent = spent-Sound now c.token gate.store gate.validated h in
      let (confirmed, row) = of_validated (Held gate.store) c gate.validated v h.validated_held in
      consumed-cases json gate.store c kind prefix employee_id payload now
        (λ s. Sound (record gate { store = s }))
        (λ w e one. record {
          validated_held = spent.validated_held;
          writes_authorised = All-append _ gate.store.mock_writes (w ∷ []) spent.writes_authorised (
            subst (λ w. Any (Authorises w) (spend now c.token gate.store.confirmations)) (sym e)
                (Any-spend (IsRow c) _ now c.token gate.store.confirmations
                  (λ row.
                    written-row json gate.store c kind prefix employee_id payload now row confirmed)
                  row),
            tt,
          );
        })
        spent

minted-Sound :
    (gate : Gate) (store' : Store) (c : Confirmation)
    → insert_confirmation gate.store c ≡ some store'
    → Sound gate
    → Sound (record gate { store = store' })
minted-Sound gate store' c h s =
    let (_, e) = insert-inverted gate.store store' c h in
    subst (λ t. Sound (record gate { store = t })) (sym e)
      (record {
        validated_held =
            All-map gate.validated
              (λ v (p, row). (p, Any-append_left (IsRow v) gate.store.confirmations (c ∷ []) row))
              s.validated_held;
        writes_authorised =
            All-map gate.store.mock_writes
              (λ w. Any-append_left (Authorises w) gate.store.confirmations (c ∷ []))
              s.writes_authorised;
      })

Step-Sound : {json : Json} {gate gate' : Gate} → Step json gate gate' → Sound gate → Sound gate'
Step-Sound {gate = gate} (Step.minted {store' = store'} c unused h) s =
    minted-Sound gate store' c h s
Step-Sound {json} {gate = gate} (Step.validates now tool_name arguments c h) s =
    let passes = (validate_iff json gate.store now tool_name arguments c).0 h in
    record {
      validated_held = (
        (passes.confirmed, find-Any c.token gate.store.confirmations c passes.stored),
        s.validated_held,
      );
      writes_authorised = s.writes_authorised;
    }
Step-Sound {json} {gate = gate} (Step.consumes c kind prefix employee_id payload now v) s =
    consumed-Sound json c kind prefix employee_id payload now gate v s
Step-Sound {gate = gate} (Step.cut_short c now v) s =
    spent-Sound now c.token gate.store gate.validated s
Step-Sound Step.cleared s = record { validated_held = s.validated_held; writes_authorised = tt }

Reachable-Sound : {json : Json} {gate : Gate} → Reachable json gate → Sound gate
Reachable-Sound Reachable.empty = record { validated_held = tt; writes_authorised = tt }
Reachable-Sound (Reachable.next run step) = Step-Sound step (Reachable-Sound run)

-- In every store that mints, validations, consumptions, consumptions cut short after their first
-- statement and clearings of the writes can reach, in any order, each write has a stored confirmation
-- of its token that was answered "confirmed", is used, and is of the write's session, turn and span.
pub every_write_confirmed :
    (json : Json) (gate : Gate)
    → Reachable json gate
    → All (λ w. Any (Authorises w) gate.store.confirmations) gate.store.mock_writes
every_write_confirmed json gate run = (Reachable-Sound run).writes_authorised
