-- ===== src/Llm/Recorded.antt =====
-- The span and the result of one logical model call (`complete`, src/hrmosaic/core/llm/base.py).
use quantic_mosaic.Prelude.{
  ℕ, ◌≤◌, ◌≡◌, refl, sym, ap, ◌⊎◌, inl, inr, Bool, true, false, not, Option, none, some, [], ◌∷◌,
  ◌++◌, leb, leb→le, ◌==◌, Bool-cases,
}
use mathlib.Core.Bool.{false≢true}
use quantic_mosaic.Llm.Counter.{DailyCallCounter, below}
use quantic_mosaic.Llm.Call.{
  Completion, ProviderError, Invoke, Model, State, Span, Outcome, Refusal, daily_cap_exceeded,
  check_daily_cap, cap_of, count_and_compare, complete, allowed, finish, record_llm_call, span_of,
}

abbrev is_some : {A : Type 0} → Option A → Bool
is_some none = false
is_some (some _) = true

-- What one call leaves: with no turn, no span. Past the cap, one span, which is "ok" exactly where a
-- completion is returned. Refused by the cap, no span, no completion, and the count of the store at
-- least the cap.
pub record Recorded (m : Model) (has_turn : Bool) (used : ℕ) (s : State)
    (result : Outcome Completion) : Type 0 where
  pub one_result : is_some result.1.0 ≡ not (is_some result.1.1)
  pub without_turn : has_turn ≡ false → result.0.spans ≡ s.spans
  pub with_turn :
      has_turn ≡ true
      → ((result.1.0 ≡ some (daily_cap_exceeded used))
          × (result.0.spans ≡ s.spans)
          × (cap_of m.daily_call_cap ≤ used))
        ⊎ ((span : Span) × (result.0.spans ≡ s.spans ++ span ∷ [])
            × (span.is_ok ≡ is_some result.1.1))

abbrev Refusal-cases : Model → Bool → ℕ → Option Refusal → Type 0
Refusal-cases m has_turn used o =
    (o ≡ none)
    ⊎ ((o ≡ some (daily_cap_exceeded used)) × (has_turn ≡ true) × (cap_of m.daily_call_cap ≤ used))

count-cases :
    (m : Model) (used now : ℕ) (counter : DailyCallCounter) (is_below : Bool)
    → Refusal-cases m true used
        (count_and_compare counter m.provider (cap_of m.daily_call_cap) used now is_below).1
unfolding count_and_compare
count-cases m used now counter true = inl refl
count-cases m used now counter false = elim (Bool-cases (leb (cap_of m.daily_call_cap) used)) [
  | inl e ↦ inr (rw e, refl, leb→le (cap_of m.daily_call_cap) used e)
  | inr e ↦ inl (rw e)
]

refusal-cases :
    (m : Model) (has_turn : Bool) (used now : ℕ) (counter : DailyCallCounter)
    → Refusal-cases m has_turn used (check_daily_cap m has_turn used now counter).1
unfolding check_daily_cap
refusal-cases m false used now counter = inl refl
refusal-cases m true used now counter = elim (Bool-cases (cap_of m.daily_call_cap == 0)) [
  | inl e ↦ rw e (inl refl)
  | inr e ↦ rw e (
      count-cases m used now (below counter m.provider (cap_of m.daily_call_cap) now).0
        (below counter m.provider (cap_of m.daily_call_cap) now).1)
]

module _ (m : Model) (used : ℕ) (now : ℕ) (s s' : State) (c : Completion)
    (same : s'.spans ≡ s.spans) where
  finish-Recorded :
      (has_turn : Bool) (o : Option ProviderError)
      → Recorded m has_turn used s (finish has_turn now s' c o)
  unfolding finish record_llm_call
  finish-Recorded false none = record {
    one_result = refl;
    without_turn = λ e. same;
    with_turn = λ e. absurd (false≢true e);
  }
  finish-Recorded false (some e) = record {
    one_result = refl;
    without_turn = λ e. same;
    with_turn = λ e. absurd (false≢true e);
  }
  finish-Recorded true none = record {
    one_result = refl;
    without_turn = λ e. absurd (false≢true (sym e));
    with_turn = λ e. inr (span_of c true, ap (λ t. t ++ span_of c true ∷ []) same, refl);
  }
  finish-Recorded true (some e) = record {
    one_result = refl;
    without_turn = λ e. absurd (false≢true (sym e));
    with_turn = λ e. inr (span_of c false, ap (λ t. t ++ span_of c false ∷ []) same, refl);
  }

allowed-Recorded :
    (m : Model) (invoke : Invoke) (has_turn : Bool) (used waited now : ℕ) (s : State)
    (counter : DailyCallCounter) (o : Option Refusal)
    → Refusal-cases m has_turn used o
    → Recorded m has_turn used s (allowed m invoke has_turn waited now s (counter, o))
unfolding allowed
allowed-Recorded m invoke has_turn used waited now s counter none h =
    finish-Recorded m used now s (record s { counter = counter }) _ refl has_turn _
allowed-Recorded m invoke has_turn used waited now s counter (some e) (inl h) = cc h
allowed-Recorded m invoke has_turn used waited now s counter (some e) (inr (same, turn, over)) =
    record { one_result = refl; without_turn = λ f. refl; with_turn = λ t. inl (same, refl, over) }

-- Whatever the store's count and the round trips are, a logical call ends with a completion or with an
-- error, never with both or neither. Without a turn it writes no span. With one, it is refused by the
-- daily cap, which writes no span and only happens where the store's count has reached the cap, or it
-- writes exactly one span, which is "ok" exactly where the completion is returned.
pub complete-Recorded :
    (m : Model) (invoke : Invoke) (has_turn : Bool) (used checked_at waited recorded_at : ℕ)
    (s : State)
    → Recorded m has_turn used s (complete m invoke has_turn used checked_at waited recorded_at s)
unfolding complete
complete-Recorded m invoke has_turn used checked_at waited recorded_at s =
    allowed-Recorded m invoke has_turn used waited recorded_at s _ _
      (refusal-cases m has_turn used checked_at s.counter)
