-- ===== src/Rules/Evaluate/Citations.antt =====
-- The citations of the result body of `evaluate` (src/hrmosaic/mcpserver/rules.py).
use quantic_mosaic.Prelude.{
  ◌≡◌, refl, sym, inl, inr, true, false, ◌||◌, Option, none, some, List, [], ◌∷◌, ◌++◌, String,
  str_eq, eq_iff, eq_refl, map, lookup, member, All, All-map, arith, Bool-cases,
}
use mathlib.Core.Path.{subst}
use quantic_mosaic.Rules.Data.{
  Scenario, RuleSet, Approval, Evidence, Decision, Citation, Report, ok,
}
use quantic_mosaic.Rules.Engine.{settle_manual, publish, resolve_evidence}
use quantic_mosaic.Rules.Evaluate.{cite, cite_all, Call, evaluate}
use quantic_mosaic.Rules.Evaluate.Body.{evaluate-Run}

abbrev chunks : List Citation → List String
chunks cs = map (λ c. c.chunk_id) cs

-- No chunk is cited twice.
abbrev pub Distinct : List Citation → Type 0
Distinct [] = Unit
Distinct (c ∷ cs) = (member c.chunk_id (map (λ c. c.chunk_id) cs) ≡ false) × Distinct cs

-- The chunk of the evidence is cited.
abbrev pub IsCited : List Citation → Option Evidence → Type 0
IsCited cs none = Unit
IsCited cs (some e) = member e.chunk_id (map (λ c. c.chunk_id) cs) ≡ true

member-append :
    (k : String) (cs : List Citation) (c : Citation)
    → member k (chunks (cs ++ c ∷ [])) ≡ (member k (chunks cs) || str_eq k c.chunk_id)
member-append k [] c = ground arith
member-append k (d ∷ cs) c = ground (arith, member-append k cs c)

append-Distinct :
    (cs : List Citation) (c : Citation)
    → member c.chunk_id (chunks cs) ≡ false
    → Distinct cs
    → Distinct (cs ++ c ∷ [])
append-Distinct [] c h d = (refl, tt)
append-Distinct (x ∷ cs) c h (apart, d) = (
  ground (
    arith,
    h,
    apart,
    member-append x.chunk_id cs c,
    eq_iff x.chunk_id c.chunk_id,
    eq_iff c.chunk_id x.chunk_id,
  ),
  append-Distinct cs c (ground (arith, h)) d,
)

cite-Distinct : (cs : List Citation) (o : Option Evidence) → Distinct cs → Distinct (cite cs o)
unfolding cite
cite-Distinct cs none d = d
cite-Distinct cs (some e) d = elim (Bool-cases (member e.chunk_id (chunks cs))) [
  | inl y ↦ rw y d
  | inr n ↦ rw n (append-Distinct cs _ n d)
]

cite-kept :
    (k : String) (cs : List Citation) (o : Option Evidence)
    → member k (chunks cs) ≡ true
    → member k (chunks (cite cs o)) ≡ true
unfolding cite
cite-kept k cs none h = h
cite-kept k cs (some e) h = elim (Bool-cases (member e.chunk_id (chunks cs))) [
  | inl y ↦ rw y h
  | inr n ↦ rw (n, member-append, h)
]

cite-IsCited : (cs : List Citation) (o : Option Evidence) → IsCited (cite cs o) o
unfolding cite
cite-IsCited cs none = tt
cite-IsCited cs (some e) = elim (Bool-cases (member e.chunk_id (chunks cs))) [
  | inl y ↦ rw (y, y)
  | inr n ↦ rw (n, member-append, n, eq_refl e.chunk_id)
]

all-Distinct :
    (cs : List Citation) (es : List (Option Evidence)) → Distinct cs → Distinct (cite_all cs es)
unfolding cite_all
all-Distinct cs [] d = d
all-Distinct cs (e ∷ es) d = all-Distinct (cite cs e) es (cite-Distinct cs e d)

all-kept :
    (k : String) (cs : List Citation) (es : List (Option Evidence))
    → member k (chunks cs) ≡ true
    → member k (chunks (cite_all cs es)) ≡ true
unfolding cite_all
all-kept k cs [] h = h
all-kept k cs (e ∷ es) h = all-kept k (cite cs e) es (cite-kept k cs e h)

IsCited-kept :
    (cs : List Citation) (es : List (Option Evidence)) (o : Option Evidence)
    → IsCited cs o
    → IsCited (cite_all cs es) o
IsCited-kept cs es none h = tt
IsCited-kept cs es (some e) h = all-kept e.chunk_id cs es h

All-IsCited : (cs : List Citation) (es : List (Option Evidence)) → All (IsCited (cite_all cs es)) es
unfolding cite_all
All-IsCited cs [] = tt
All-IsCited cs (e ∷ es) =
    (IsCited-kept (cite cs e) es e (cite-IsCited cs e), All-IsCited (cite cs e) es)

rows-IsCited :
    (cs : List Citation) (ds : List Decision)
    → All (IsCited cs) (map (λ d. d.entry.evidence) ds)
    → All (λ e. IsCited cs e.evidence) (map publish ds)
unfolding publish
rows-IsCited cs [] h = tt
rows-IsCited cs (d ∷ ds) h = (h.0, rows-IsCited cs ds h.1)

-- Where `evaluate` returns a body for a scenario of the rules file, no chunk is cited twice, and the
-- chunk of every published row that has evidence is cited.
pub evaluate-citations :
    (scenario : String) (call : Call) (rule_set : RuleSet) (spec : Scenario) (body : Report)
    → lookup scenario rule_set.scenarios ≡ some spec
    → evaluate scenario call rule_set ≡ ok body
    → Distinct body.citations × All (λ e. IsCited body.citations e.evidence) body.requirements
evaluate-citations scenario call rule_set spec body e h =
    let run = evaluate-Run scenario call rule_set spec body e h in
    let ds = settle_manual run.decisions in
    let rows = map (λ (d : Decision). d.entry.evidence) ds in
    let approvals =
      map (λ (a : Approval). resolve_evidence run.context.world.list_chunks a.doc_id a.heading_path)
        run.approvals in
    (
      subst Distinct (sym run.citations_eq)
          (all-Distinct (cite_all [] rows) approvals (all-Distinct [] rows tt)),
      subst (λ cs. All (λ e. IsCited cs e.evidence) body.requirements) (sym run.citations_eq)
          (subst (All (λ e. IsCited (cite_all (cite_all [] rows) approvals) e.evidence))
            (sym run.requirements_eq)
            (rows-IsCited (cite_all (cite_all [] rows) approvals) ds
              (All-map rows (IsCited-kept (cite_all [] rows) approvals) (All-IsCited [] rows)))),
    )
