-- ===== src/Rules/Engine/Derived.antt =====
-- `derive_parameters` (src/hrmosaic/mcpserver/rules.py): what the caller supplied stays.
use quantic_mosaic.Prelude.{
  ◌≡◌, refl, Option, none, some, String, str_eq, eq_iff, lookup, lookup-insert, arith, ltb,
  if◌then◌else◌, List, inl, inr, Bool-cases, ◌⊎◌,
}
use quantic_mosaic.Prelude.Int.{pos, ◌+ℤ◌}
use quantic_mosaic.Calendar.Civil.{Date}
use quantic_mosaic.Calendar.Business.{business_days_inclusive}
use quantic_mosaic.Rules.Value.{Value, Dict, int, parse_date?, days_from}
use quantic_mosaic.Rules.Data.{ok}
use quantic_mosaic.Rules.Engine.{set_default, derive_span, derive_parameters}

or_else : Option Value → Option Value → Option Value
or_else none b = b
or_else (some a) b = some a

lookup-set_default :
    (k j : String) (v : Value) (d : Dict)
    → lookup j (set_default k v d) ≡ or_else (lookup j d) (if str_eq k j then some v else none)
unfolding set_default or_else
lookup-set_default k j v d = ground (arith, lookup-insert k j v d, eq_iff k j)

set_default_kept :
    (k j : String) (v w : Value) (d : Dict)
    → lookup j d ≡ some w
    → lookup j (set_default k v d) ≡ some w
set_default_kept k j v w d e = rw (lookup-set_default, e) (unfold or_else in refl)

-- The parameters with what the span from `start` to `end` implies.
abbrev with_span : Dict → List Date → Date → Date → Dict
with_span p holidays start end =
    set_default "days" (int (pos (business_days_inclusive start end holidays)))
      (set_default "duration_days" (int (days_from end start +ℤ pos 1)) p)

derive_span-cases :
    (p : Dict) (holidays : List Date) (start end : Option Date) (q : Dict)
    → derive_span p holidays start end ≡ ok q
    → (q ≡ p) ⊎ ((s : Date) × (e : Date) × (q ≡ with_span p holidays s e))
unfolding derive_span
derive_span-cases p holidays none end q h = inl (cc)
derive_span-cases p holidays (some s) none q h = inl (cc)
derive_span-cases p holidays (some s) (some e) q h = elim (Bool-cases (ltb e s)) [
  | inl b ↦ cc (rw b at h)
  | inr b ↦ inr (s, e, cc (rw b at h))
]

-- Where `derive_parameters` returns, a parameter that the caller supplied has the value supplied.
pub derive_keeps_supplied :
    (p : Dict) (holidays : List Date) (k : String) (v : Value) (q : Dict)
    → derive_parameters p holidays ≡ ok q
    → lookup k p ≡ some v
    → lookup k q ≡ some v
unfolding derive_parameters
derive_keeps_supplied p holidays k v q h e =
    elim (derive_span-cases p holidays (parse_date? (lookup "start_date" p))
      (parse_date? (lookup "end_date" p)) q h) [
        | inl same ↦ rw same e
        | inr (s, last, made) ↦
            rw made (set_default_kept "days" k _ v _ (set_default_kept "duration_days" k _ v p e))
      ]
