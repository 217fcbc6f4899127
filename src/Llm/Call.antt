-- ===== src/Llm/Call.antt =====
-- One logical model call: `_check_daily_cap`, `_call_with_failover` with `_timed`, `complete` and
-- `record_llm_call` (src/hrmosaic/core/llm/base.py). Times are in milliseconds. A round trip is a
-- parameter of the model: for each trip, in order, how long it takes and what comes back.
use quantic_mosaic.Prelude.{
  ℕ, ◌+◌, ◌-◌, Bool, true, false, not, ◌&&◌, ◌||◌, Option, none, some, List, [], ◌∷◌, ◌++◌, String,
  leb, ltb, ◌==◌, if◌then◌else◌,
}
use quantic_mosaic.Llm.Counter.{DailyCallCounter, below, seed, record_call}

pub record ProviderError : Type 0 where
  pub retryable : Bool
  pub retry_after : Option ℕ

pub record Completion : Type 0 where
  pub words : String
  pub provider : String
  pub model : String
  pub ttfb_ms : Option ℕ
  pub retry_count : ℕ
  pub provider_failover : Bool
  pub limiter_wait_ms : ℕ

-- Who a round trip goes to.
pub data Adapter : Type 0 where
  primary fallback : Adapter

pub data Answer : Type 0 where
  completed : Completion → Answer
  failed : ProviderError → Answer

-- What a round trip costs and what comes back, by its number and its adapter.
abbrev pub Invoke : Type 0
Invoke = ℕ → Adapter → ℕ × Answer

-- `_Attempts`, with the round trips, the time they and the backoff took, and whether the budget's
-- timeout ended them.
pub record Attempts : Type 0 where
  pub completion : Option Completion
  pub retry_count : ℕ
  pub failed_over : Bool
  pub round_trip_ms : ℕ
  pub failure : Option ProviderError
  pub trips : List Adapter
  pub slept : ℕ
  pub elapsed : ℕ
  pub timed_out : Bool

abbrev pub no_attempts : Attempts
no_attempts = record {
  completion = none;
  retry_count = 0;
  failed_over = false;
  round_trip_ms = 0;
  failure = none;
  trips = [];
  slept = 0;
  elapsed = 0;
  timed_out = false;
}

abbrev pub default_backoff : ℕ
default_backoff = 1000

abbrev pub max_backoff : ℕ
max_backoff = 2000

-- `_timed`: the round trip has run to its end, and its time is noted.
abbrev timed : ℕ → Adapter → Attempts → Attempts
timed cost adapter r = record r {
  round_trip_ms = cost;
  trips = r.trips ++ adapter ∷ [];
  elapsed = r.elapsed + cost;
}

-- `_timed(self.invoke(…))` under the `asyncio.timeout` of `complete`, which cancels what is awaited
-- when the budget has passed: the answer of the round trip, or none where the timeout ends it.
unfoldable pub under_timeout : ℕ → ℕ × Answer → Adapter → Attempts → Attempts × Option Answer
under_timeout budget (cost, answer) adapter r =
    if ltb budget (r.elapsed + cost)
    then (
      record (timed (budget - r.elapsed) adapter r) { elapsed = budget; timed_out = true },
      none,
    )
    else (timed cost adapter r, some answer)

unfoldable pub settle : Attempts × Option Answer → Attempts
settle (r, none) = r
settle (r, some (Answer.completed c)) = record r { completion = some c }
settle (r, some (Answer.failed e)) = record r { failure = some e }

-- The second round trip, at the fallback where one is configured.
unfoldable pub second_trip : Invoke → Bool → ℕ → Attempts → Attempts
unfolding under_timeout settle
second_trip invoke has_fallback budget r =
    let adapter = if has_fallback then fallback else primary in
    settle (
      under_timeout budget (invoke 1 adapter) adapter
        (if has_fallback then record r { failed_over = true } else r))

unfoldable pub delay_of : ProviderError → ℕ
delay_of e = elim e.retry_after [ none ↦ default_backoff | some delay ↦ delay ]

-- `await asyncio.sleep(delay)`, which is shorter than the time that is left.
unfoldable pub back_off : ℕ → ℕ → Attempts → Attempts
back_off budget delay r =
    if leb delay max_backoff && ltb delay (budget - r.elapsed)
    then record r { slept = delay; elapsed = r.elapsed + delay; retry_count = r.retry_count + 1 }
    else r

unfoldable pub after_first : Invoke → Bool → ℕ → Attempts × Option Answer → Attempts
unfolding second_trip delay_of back_off
after_first invoke has_fallback budget (r, none) = r
after_first invoke has_fallback budget (r, some (Answer.completed c)) = record r {
  completion = some c;
}
after_first invoke has_fallback budget (r, some (Answer.failed e)) =
    if not e.retryable
    then record r { failure = some e }
    else second_trip invoke has_fallback budget (back_off budget (delay_of e) r)

unfoldable pub call_with_failover : Invoke → Bool → ℕ → Attempts
unfolding under_timeout after_first
call_with_failover invoke has_fallback budget =
    after_first invoke has_fallback budget
      (under_timeout budget (invoke 0 primary) primary no_attempts)

-- One `llm_call` span: its provider, its counts and whether its status is "ok".
pub record Span : Type 0 where
  pub provider : String
  pub retry_count : ℕ
  pub provider_failover : Bool
  pub is_ok : Bool

pub record Model : Type 0 where
  pub provider : String
  pub model : String
  pub has_fallback : Bool
  pub daily_call_cap : Option ℕ
  pub call_budget : ℕ

-- The process's counter, and the spans of the turn.
pub record State : Type 0 where
  pub counter : DailyCallCounter
  pub spans : List Span

pub data Refusal : Type 0 where
  daily_cap_exceeded : ℕ → Refusal
  provider_error : ProviderError → Refusal

abbrev pub Outcome : Type 0 → Type 0
Outcome A = State × (Option Refusal × Option A)

unfoldable pub cap_of : Option ℕ → ℕ
cap_of none = 0
cap_of (some cap) = cap

unfoldable pub count_and_compare :
    DailyCallCounter → String → ℕ → ℕ → ℕ → Bool → DailyCallCounter × Option Refusal
unfolding seed
count_and_compare counter provider cap used now true = (counter, none)
count_and_compare counter provider cap used now false =
    (seed counter provider used now, if leb cap used then some (daily_cap_exceeded used) else none)

-- `_check_daily_cap`: `used` is what `count_calls_today` would return.
unfoldable pub check_daily_cap :
    Model → Bool → ℕ → ℕ → DailyCallCounter → DailyCallCounter × Option Refusal
unfolding cap_of count_and_compare below
check_daily_cap m has_turn used now counter =
    let (rolled, is_below) = below counter m.provider (cap_of m.daily_call_cap) now in
    if not has_turn || (cap_of m.daily_call_cap == 0)
    then (counter, none)
    else count_and_compare rolled m.provider (cap_of m.daily_call_cap) used now is_below

abbrev pub span_of : Completion → Bool → Span
span_of c is_ok = record {
  provider = c.provider;
  retry_count = c.retry_count;
  provider_failover = c.provider_failover;
  is_ok = is_ok;
}

-- `record_llm_call`: nothing without a turn, and one span and one count with one.
unfoldable pub record_llm_call : Bool → Completion → Bool → ℕ → State → State
unfolding record_call
record_llm_call false c is_ok now s = s
record_llm_call true c is_ok now s = record {
  counter = record_call s.counter c.provider now;
  spans = s.spans ++ span_of c is_ok ∷ [];
}

completion_or_blank : Model → Option Completion → Completion
completion_or_blank m (some c) = c
completion_or_blank m none = record {
  words = "";
  provider = m.provider;
  model = m.model;
  ttfb_ms = none;
  retry_count = 0;
  provider_failover = false;
  limiter_wait_ms = 0;
}

unfoldable pub accounted : Model → ℕ → Attempts → Completion
unfolding completion_or_blank
accounted m waited r =
    let c = completion_or_blank m r.completion in
    record c {
      retry_count = r.retry_count;
      provider_failover = r.failed_over;
      limiter_wait_ms = waited;
      ttfb_ms = some (elim c.ttfb_ms [ none ↦ r.round_trip_ms | some first ↦ first ]);
    }

timeout_error : ProviderError
timeout_error = record { retryable = false; retry_after = none }

unfoldable pub failure_of : Attempts → Option ProviderError
unfolding timeout_error
failure_of r = if r.timed_out then some timeout_error else r.failure

unfoldable pub finish : Bool → ℕ → State → Completion → Option ProviderError → Outcome Completion
unfolding record_llm_call
finish has_turn now s c none = (record_llm_call has_turn c true now s, (none, some c))
finish has_turn now s c (some e) =
    (record_llm_call has_turn c false now s, (some (provider_error e), none))

unfoldable pub allowed :
    Model → Invoke → Bool → ℕ → ℕ → State → DailyCallCounter × Option Refusal → Outcome Completion
unfolding finish accounted failure_of call_with_failover
allowed m invoke has_turn waited recorded_at s (counter, some e) =
    (record s { counter = counter }, (some e, none))
allowed m invoke has_turn waited recorded_at s (counter, none) =
    let r = call_with_failover invoke m.has_fallback m.call_budget in
    finish has_turn recorded_at (record s { counter = counter }) (accounted m waited r)
      (failure_of r)

-- `complete`: the cap, the limiter's wait, the attempts, and one span.
unfoldable pub complete : Model → Invoke → Bool → ℕ → ℕ → ℕ → ℕ → State → Outcome Completion
unfolding check_daily_cap allowed
complete m invoke has_turn used checked_at waited recorded_at s =
    allowed m invoke has_turn waited recorded_at s
      (check_daily_cap m has_turn used checked_at s.counter)
