-- ===== src/Approvers/Roles.antt =====
-- `resolve_all` (src/hrmosaic/mcpserver/approvers.py): the roles that its rows name.
use quantic_mosaic.Prelude.{
  ◌≡◌, refl, sym, ap, ◌∙◌, inl, inr, Bool, true, false, Option, none, some, List, [], ◌∷◌, ◌++◌,
  String, str_eq, eq_iff, member, map, any, arith, if◌then◌else◌, Bool-cases,
}
use mathlib.Core.List.{append-nil, append_assoc}
use quantic_mosaic.Approvers.{
  Approver, Tables, Kind, manager, director, vp, bare, held_by, routed_up, resolve_titled,
  resolve_kind, of_kind, go_with, resolve, resolve_after, resolve_all, kind_of, Employee,
}

-- The roles in their first order, each once, after those of `seen`.
abbrev pub distinct_after : List String → List String → List String
distinct_after seen [] = []
distinct_after seen (role ∷ roles) =
    if member role seen
    then distinct_after seen roles
    else role ∷ distinct_after (seen ++ role ∷ []) roles

held-role : (role : String) (o : Option Employee) → (held_by role o).role ≡ role
unfolding held_by bare
held-role role none = refl
held-role role (some row) = refl

titled-role :
    (tables : Tables) (actor_id role : String) (kind : Kind) (b : Bool)
    → (resolve_titled tables actor_id role kind b).role ≡ role
unfolding resolve_titled routed_up
titled-role tables actor_id role kind true = held-role role _
titled-role tables actor_id role kind false = held-role role _

kind-role :
    (tables : Tables) (actor_id role : String) (kind : Option Kind)
    → (resolve_kind tables actor_id role kind).role ≡ role
unfolding resolve_kind bare
kind-role tables actor_id role none = refl
kind-role tables actor_id role (some manager) = held-role role _
kind-role tables actor_id role (some director) = titled-role tables actor_id role director _
kind-role tables actor_id role (some vp) = titled-role tables actor_id role vp _

resolve-role :
    (tables : Tables) (actor_id role : String) (approver : Approver)
    → resolve tables actor_id role ≡ some approver
    → approver.role ≡ role
unfolding resolve
resolve-role tables actor_id role approver h = of_kind-role (kind_of tables role) h
  where
    of_kind-role :
        (o : Option (Option Kind))
        → of_kind (resolve_kind tables actor_id role) o ≡ some approver
        → approver.role ≡ role
    of_kind-role none h = cc h
    of_kind-role (some kind) h =
        let same : resolve_kind tables actor_id role kind ≡ approver = cc h in
        ap (λ a. a.role) (sym same) ∙ kind-role tables actor_id role kind

any-member :
    (role : String) (resolved : List Approver)
    → any (λ (entry : Approver). str_eq entry.role role) resolved
      ≡ member role (map (λ a. a.role) resolved)
any-member role [] = refl
any-member role (a ∷ rest) =
    ground (arith, any-member role rest, eq_iff a.role role, eq_iff role a.role)

map-append :
    (xs : List Approver) (a : Approver)
    → map (λ a. a.role) (xs ++ a ∷ []) ≡ map (λ a. a.role) xs ++ a.role ∷ []
map-append [] a = refl
map-append (x ∷ xs) a = rw (map-append xs a)

go_with-inverted :
    (rest : Approver → Option (List Approver)) (o : Option Approver) (result : List Approver)
    → go_with rest o ≡ some result
    → (a : Approver) × (o ≡ some a) × (rest a ≡ some result)
go_with-inverted rest none result h = cc h
go_with-inverted rest (some a) result h = (a, refl, h)

after-roles :
    (tables : Tables) (actor_id : String) (roles : List String) (resolved result : List Approver)
    → resolve_after tables actor_id resolved roles ≡ some result
    → map (λ a. a.role) result
      ≡ map (λ a. a.role) resolved ++ distinct_after (map (λ a. a.role) resolved) roles
unfolding resolve_after
after-roles tables actor_id [] resolved result h =
    let same : resolved ≡ result = cc h in
    ap (map (λ a. a.role)) (sym same) ∙ sym (append-nil (map (λ a. a.role) resolved))
after-roles tables actor_id (role ∷ roles) resolved result h =
    elim (Bool-cases (any (λ (entry : Approver). str_eq entry.role role) resolved)) [
      | inl e ↦
          rw (sym (any-member role resolved) ∙ e)
            (after-roles tables actor_id roles resolved result (rw e at h))
      | inr e ↦
          let (a, p, q) = go_with-inverted _ _ result (rw e at h) in
          let r = resolve-role tables actor_id role a p in
          let roles_of : map (λ a. a.role) (resolved ++ a ∷ [])
              ≡ map (λ a. a.role) resolved ++ role ∷ [] =
            rw (map-append, r) in
          let ih =
            rw roles_of at (after-roles tables actor_id roles (resolved ++ a ∷ []) result q) in
          rw (sym (any-member role resolved) ∙ e)
            (ih ∙ append_assoc (map (λ a. a.role) resolved) (role ∷ []) _)
    ]

-- Where `resolve_all` returns, the roles of its rows are the roles it was given, in their first order and
-- each once.
pub resolve_all-roles :
    (tables : Tables) (actor_id : String) (roles : List String) (result : List Approver)
    → resolve_all tables actor_id roles ≡ some result
    → map (λ a. a.role) result ≡ distinct_after [] roles
unfolding resolve_all
resolve_all-roles tables actor_id roles result h = after-roles tables actor_id roles [] result h
