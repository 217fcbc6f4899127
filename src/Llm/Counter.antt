-- ===== src/Llm/Counter.antt =====
-- `DailyCallCounter` (src/hrmosaic/core/llm/limiter.py). Times are in microseconds since the epoch.
use quantic_mosaic.Prelude.{
  ℕ, suc, ◌+◌, ◌-◌, ◌*◌, ◌%◌, Bool, false, Option, none, some, List, [], String, lookup, insert,
  leb, ltb, ◌==◌, if◌then◌else◌,
}

pub record DailyCallCounter : Type 0 where
  pub reseed_every : ℕ
  pub day : Option ℕ
  pub counts : List (String × ℕ)
  pub since_seed : List (String × ℕ)

abbrev pub micros_per_day : ℕ
micros_per_day = 24 * 60 * 60 * 1000000

-- Midnight of the reading, in UTC.
abbrev pub utc_day_start_micros : ℕ → ℕ
utc_day_start_micros now = now - now % micros_per_day

abbrev pub get_or_zero : Option ℕ → ℕ
get_or_zero none = 0
get_or_zero (some n) = n

same_day : Option ℕ → ℕ → Bool
same_day none day = false
same_day (some d) day = d == day

-- `_roll`: another day forgets every count.
unfoldable pub roll : DailyCallCounter → ℕ → DailyCallCounter
unfolding same_day
roll counter now =
    if same_day counter.day (utc_day_start_micros now)
    then counter
    else record counter { day = some (utc_day_start_micros now); counts = []; since_seed = [] }

trusted : ℕ → ℕ → ℕ → Option ℕ → Bool
trusted reseed_every count cap none = false
trusted reseed_every count cap (some seen) = if leb reseed_every seen then false else ltb count cap

-- `below`, on a counter that is of this day already.
unfoldable pub below_rolled : DailyCallCounter → String → ℕ → Bool
unfolding trusted
below_rolled counter provider cap =
    trusted counter.reseed_every (get_or_zero (lookup provider counter.counts)) cap
      (lookup provider counter.since_seed)

unfoldable pub below : DailyCallCounter → String → ℕ → ℕ → DailyCallCounter × Bool
unfolding roll below_rolled
below counter provider cap now =
    let rolled = roll counter now in (rolled, below_rolled rolled provider cap)

unfoldable pub seed : DailyCallCounter → String → ℕ → ℕ → DailyCallCounter
unfolding roll
seed counter provider used now =
    let rolled = roll counter now in
    record rolled {
      counts = insert provider used rolled.counts;
      since_seed = insert provider 0 rolled.since_seed;
    }

unfoldable pub bump : String → List (String × ℕ) → Option ℕ → List (String × ℕ)
bump provider m none = m
bump provider m (some n) = insert provider (suc n) m

-- `record`: a provider that nobody has seeded stays unseeded.
unfoldable pub record_call : DailyCallCounter → String → ℕ → DailyCallCounter
unfolding roll bump
record_call counter provider now =
    let rolled = roll counter now in
    record rolled {
      counts = insert provider (get_or_zero (lookup provider rolled.counts) + 1) rolled.counts;
      since_seed = bump provider rolled.since_seed (lookup provider rolled.since_seed);
    }

unfoldable pub count : DailyCallCounter → String → ℕ → DailyCallCounter × ℕ
unfolding roll
count counter provider now =
    let rolled = roll counter now in (rolled, get_or_zero (lookup provider rolled.counts))

unfoldable pub reset : DailyCallCounter → DailyCallCounter
reset counter = record counter { day = none; counts = []; since_seed = [] }
