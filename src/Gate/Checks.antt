-- ===== src/Gate/Checks.antt =====
-- The checks of `validate` (src/hrmosaic/mcpserver/confirm.py) against what it promises: the row that
-- it returns, and the calls for which it returns one.
use quantic_mosaic.Prelude.{
  ℕ, ◌<◌, ◌≡◌, refl, sym, ap, ◌∙◌, ◌↔◌, inl, inr, true, false, Option, none, some, List, [], ◌∷◌,
  String, str_eq, eq_iff, lookup, insert, arith, Bool-cases,
}
use quantic_mosaic.Gate.Store.{Confirmation, Store, find}
use quantic_mosaic.Gate.Confirm.{
  Argument, words, Arguments, Json, token_argument, without_token, canonical_arguments, load,
  token_text, token_in, check, check_loaded, validate_token, validate,
}

-- The six checks, as a statement about the arguments and the stored row.
pub record Passes (json : Json) (store : Store) (now : ℕ) (tool_name : String)
    (arguments : Arguments) (c : Confirmation) : Type 0 where
  pub supplied : lookup token_argument arguments ≡ some (words c.token)
  pub nonempty : str_eq c.token "" ≡ false
  pub stored : find c.token store.confirmations ≡ some c
  pub unused : c.used_at ≡ none
  pub live : now < c.expires_at
  pub confirmed : c.user_response ≡ "confirmed"
  pub same_tool : c.tool_name ≡ tool_name
  pub same_arguments : c.arguments_json ≡ canonical_arguments json arguments

some_eq : {A : Type 0} {x y : A} → some x ≡ some y → x ≡ y
some_eq h = cc

pub find-token :
    (token : String) (cs : List Confirmation) (c : Confirmation)
    → find token cs ≡ some c
    → c.token ≡ token
unfolding find
find-token token [] c h = cc
find-token token (d ∷ cs) c h = elim (Bool-cases (str_eq d.token token)) [
  | inl e ↦ ap (λ d. d.token) (sym (some_eq (rw e at h))) ∙ (eq_iff d.token token).0 e
  | inr e ↦ find-token token cs c (rw e at h)
]

token_text-some :
    (o : Option Argument) (token : String)
    → token_text o ≡ some token
    → (o ≡ some (words token)) × (str_eq token "" ≡ false)
unfolding token_text
token_text-some (some (words s)) token h = elim (Bool-cases (str_eq s "")) [
  | inl e ↦ cc (rw e at h)
  | inr e ↦
      let same : s ≡ token = some_eq (rw e at h) in (ap (λ s. some (words s)) same, rw same at e)
]
token_text-some (some (Argument.other s)) token h = cc
token_text-some none token h = cc

-- The record of one row that `check` lets through.
record Checked (now : ℕ) (tool_name canonical : String) (d c : Confirmation) : Type 0 where
  same : d ≡ c
  unused : d.used_at ≡ none
  live : now < d.expires_at
  confirmed : str_eq d.user_response "confirmed" ≡ true
  same_tool : str_eq d.tool_name tool_name ≡ true
  same_arguments : str_eq d.arguments_json canonical ≡ true

check-Checked :
    (now : ℕ) (tool_name canonical : String) (d c : Confirmation)
    → check now tool_name canonical d ≡ some c
    → Checked now tool_name canonical d c
unfolding check
check-Checked now tool_name canonical d c h = record {
  same = ground (arith, h);
  unused = ground (arith, h);
  live = ground (arith, h);
  confirmed = ground (arith, h);
  same_tool = ground (arith, h);
  same_arguments = ground (arith, h);
}

check-passes :
    (now : ℕ) (tool_name canonical : String) (c : Confirmation)
    → c.used_at ≡ none
    → now < c.expires_at
    → str_eq c.user_response "confirmed" ≡ true
    → str_eq c.tool_name tool_name ≡ true
    → str_eq c.arguments_json canonical ≡ true
    → check now tool_name canonical c ≡ some c
unfolding check
check-passes now tool_name canonical c unused live confirmed same_tool same_arguments = ground arith

module _ (json : Json) (store : Store) (now : ℕ) (tool_name : String) (arguments : Arguments) where
  loaded-Passes :
      (token : String) (c : Confirmation) (o : Option Confirmation)
      → token_in arguments ≡ some token
      → find token store.confirmations ≡ o
      → check_loaded now tool_name (canonical_arguments json arguments) o ≡ some c
      → Passes json store now tool_name arguments c
  unfolding check_loaded token_in
  loaded-Passes token c none p q h = cc
  loaded-Passes token c (some d) p q h =
      let k = check-Checked now tool_name (canonical_arguments json arguments) d c h in
      let (given, full) = token_text-some (lookup token_argument arguments) token p in
      let t : token ≡ c.token =
        sym (find-token token store.confirmations d q) ∙ ap (λ d. d.token) k.same in
      record {
        supplied = given ∙ ap (λ t. some (words t)) t;
        nonempty = rw t at full;
        stored = rw (t, k.same) at q;
        unused = rw k.same at k.unused;
        live = rw k.same at k.live;
        confirmed = rw k.same at ((eq_iff d.user_response "confirmed").0 k.confirmed);
        same_tool = rw k.same at ((eq_iff d.tool_name tool_name).0 k.same_tool);
        same_arguments = rw k.same at ((eq_iff d.arguments_json _).0 k.same_arguments);
      }

  validated-Passes :
      (c : Confirmation) (o : Option String)
      → token_in arguments ≡ o
      → validate_token json store now tool_name arguments o ≡ some c
      → Passes json store now tool_name arguments c
  unfolding validate_token load
  validated-Passes c none p h = cc
  validated-Passes c (some token) p h =
      loaded-Passes token c (find token store.confirmations) p refl h

  Passes-validated :
      (c : Confirmation)
      → Passes json store now tool_name arguments c
      → validate json store now tool_name arguments ≡ some c
  unfolding validate validate_token token_in token_text load check_loaded
  Passes-validated c h =
      rw (h.supplied, h.nonempty, h.stored)
        (check-passes now tool_name (canonical_arguments json arguments) c h.unused h.live
          ((eq_iff c.user_response "confirmed").1 h.confirmed)
          ((eq_iff c.tool_name tool_name).1 h.same_tool)
          ((eq_iff c.arguments_json _).1 h.same_arguments))

  -- `validate` returns a confirmation exactly when the arguments carry its token as a text that is
  -- not empty, the store has it under that token, it is unused, it expires after the clock's reading,
  -- its response is "confirmed", and its tool and its canonical arguments are those of the call.
  pub validate_iff :
      (c : Confirmation)
      → (validate json store now tool_name arguments ≡ some c)
        ↔ Passes json store now tool_name arguments c
  unfolding validate
  validate_iff c = (validated-Passes c (token_in arguments) refl, Passes-validated c)

without-insert :
    (token : Argument) (arguments : Arguments)
    → without_token (insert token_argument token arguments) ≡ without_token arguments
unfolding without_token
without-insert token [] = refl
without-insert token ((key, value) ∷ rest) = ground (arith, without-insert token rest)

-- The token is no part of the canonical arguments.
pub canonical-insert :
    (json : Json) (token : Argument) (arguments : Arguments)
    → canonical_arguments json (insert token_argument token arguments)
      ≡ canonical_arguments json arguments
unfolding canonical_arguments
canonical-insert json token arguments = ap json.dumps_sorted (without-insert token arguments)
