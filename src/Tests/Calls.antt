-- ===== src/Tests/Calls.antt =====
-- Model calls (src/hrmosaic/core/llm) on small inputs.
use quantic_mosaic.Prelude.{
  ℕ, zero, suc, ◌+◌, ◌≡◌, refl, true, false, ◌*◌, ◌≤◌, ◌-◌, ◌&&◌, none, some, List, [], ◌∷◌, String,
  ltb, max, arith,
}
use quantic_mosaic.Llm.Counter.{DailyCallCounter, below, seed}
use quantic_mosaic.Llm.Trust.{record_calls, calls_of, below-after_seed}
use quantic_mosaic.Llm.Call.{Answer, Invoke, Model, State, call_with_failover, complete}
use quantic_mosaic.Llm.Bounds.{IsBounded, call_with_failover-IsBounded}
use quantic_mosaic.Llm.Recorded.{Recorded, complete-Recorded}
use quantic_mosaic.Llm.Limiter.{Bucket, full, run}
use quantic_mosaic.Llm.Limiter.Grants.{run_bounded}

abbrev counter : DailyCallCounter
counter = record { reseed_every = 100; day = none; counts = []; since_seed = [] }

abbrev calls : List (String × ℕ)
calls = ("a", 5) ∷ ("b", 6) ∷ ("a", 7) ∷ []

below-after_seed_example :
    (below (record_calls (seed counter "a" 40 3) calls) "a" 43 9).1
    ≡ (ltb (calls_of "a" calls) counter.reseed_every && ltb (40 + calls_of "a" calls) 43)
below-after_seed_example =
    below-after_seed counter "a" 40 43 3 9 calls (refl, (refl, (refl, tt))) refl

-- The first round trip fails and may be retried; the second answers.
invoke : Invoke
invoke zero adapter = (100, Answer.failed (record { retryable = true; retry_after = some 500 }))
invoke (suc n) adapter = (
  200,
  Answer.completed (record {
    words = "Hello";
    provider = "b";
    model = "m";
    ttfb_ms = none;
    retry_count = 0;
    provider_failover = false;
    limiter_wait_ms = 0;
  }),
)

elapses : (call_with_failover invoke true 52000).elapsed ≡ 800
unfolding call_with_failover invoke
elapses = refl

call_with_failover-IsBounded_example : IsBounded true 52000 (call_with_failover invoke true 52000)
call_with_failover-IsBounded_example = call_with_failover-IsBounded invoke true 52000

abbrev llm : Model
llm = record {
  provider = "a";
  model = "m";
  has_fallback = true;
  daily_call_cap = some 50;
  call_budget = 52000;
}

abbrev state : State
state = record { counter = counter; spans = [] }

complete-Recorded_example : Recorded llm true 49 state (complete llm invoke true 49 5 0 9 state)
complete-Recorded_example = complete-Recorded llm invoke true 49 5 0 9 state

-- Sleeps that are cut short, but never to nothing.
abbrev naps : ℕ → ℕ → ℕ
naps n asked = max 1 (asked - 1)

-- Three calls at once on a bucket of two.
abbrev ended : ℕ × Bucket
ended = (4, record { tokens = 2; updated = 4 })

waits : run 10 2 3 naps (0 ∷ 0 ∷ 0 ∷ []) 0 (full 10 2 3 0) ≡ some ended
unfolding run
waits = refl

run_bounded_example :
    (out : ℕ × Bucket) × (run 10 2 3 naps (0 ∷ 0 ∷ 0 ∷ []) 0 (full 10 2 3 0) ≡ some out)
    × (3 * 10 ≤ 2 * 10 + (out.0 - 0) * 3)
run_bounded_example =
    run_bounded 10 2 3 naps (0 ∷ 0 ∷ 0 ∷ []) 0 (omega arith) (omega arith) (λ n d. omega arith)
