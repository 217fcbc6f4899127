-- ===== src/Llm/Limiter.antt =====
-- The token bucket in front of the model calls (`TokenBucket`, src/hrmosaic/core/llm/limiter.py). Time
-- is counted in ticks and the bucket in parts of a call: `one` parts are a call, and `rate` parts come
-- in at each tick. How long a sleep lasts is the event loop's, and is an argument.
pub mod Grants
use quantic_mosaic.Prelude.{
  ℕ, zero, suc, ◌+◌, ◌-◌, ◌*◌, ◌/◌, min, Option, none, some, List, [], ◌∷◌, leb, if◌then◌else◌,
}

pub record Bucket : Type 0 where
  pub tokens : ℕ
  pub updated : ℕ

abbrev pub then_run : (ℕ → Bucket → Option (ℕ × Bucket)) → Option (ℕ × Bucket) → Option (ℕ × Bucket)
then_run next none = none
then_run next (some (now, b)) = next now b

module _ (one capacity rate : ℕ) where
  abbrev pub full : ℕ → Bucket
  full now = record { tokens = capacity * one; updated = now }

  -- `_refill`, at a reading of the clock.
  unfoldable pub refill : ℕ → Bucket → Bucket
  refill now b = record {
    tokens = min (capacity * one) (b.tokens + (now - b.updated) * rate);
    updated = now;
  }

  -- The sleep that is asked for, rounded up to ticks.
  abbrev pub shortfall : Bucket → ℕ
  shortfall b = (one - b.tokens + (rate - 1)) / rate

  -- The loop of `acquire`: the time at which it returns, and the bucket. `slept` is the number of the
  -- sleeps so far.
  unfoldable pub acquire_from : (ℕ → ℕ → ℕ) → ℕ → ℕ → ℕ → Bucket → Option (ℕ × Bucket)
  unfolding refill
  acquire_from sleep zero slept now b = none
  acquire_from sleep (suc fuel) slept now b =
      let filled = refill now b in
      let rest =
        acquire_from sleep fuel (slept + 1) (now + sleep slept (shortfall filled)) filled in
      if leb one filled.tokens
      then some (now, record filled { tokens = filled.tokens - one })
      else rest

  -- `acquire`, with fuel for every sleep that it can need.
  unfoldable pub acquire : (ℕ → ℕ → ℕ) → ℕ → Bucket → Option (ℕ × Bucket)
  unfolding acquire_from
  acquire sleep now b = acquire_from sleep (one + 1) 0 now b

  -- Calls one after another, each a pause after the one before has got its token.
  unfoldable pub run : (ℕ → ℕ → ℕ) → List ℕ → ℕ → Bucket → Option (ℕ × Bucket)
  unfolding acquire
  run sleep [] now b = some (now, b)
  run sleep (pause ∷ more) now b = then_run (run sleep more) (acquire sleep (now + pause) b)
