-- ===== src/Llm/Trust.antt =====
-- What `DailyCallCounter.below` proves (src/hrmosaic/core/llm/limiter.py), over every list of calls
-- that the process records after a seed.
use quantic_mosaic.Prelude.{
  ℕ, ◌+◌, ◌≡◌, refl, sym, ap, ◌∙◌, inl, inr, false, ◌&&◌, Option, none, some, List, [], ◌∷◌, String,
  str_eq, eq_iff, eq_refl, lookup, insert, lookup-insert, arith, ltb, if◌then◌else◌, Bool-cases,
}
use quantic_mosaic.Llm.Counter.{
  DailyCallCounter, utc_day_start_micros, get_or_zero, roll, below_rolled, below, seed, bump,
  record_call,
}

-- The calls that are recorded, each with its provider and the reading of the clock.
abbrev pub record_calls : DailyCallCounter → List (String × ℕ) → DailyCallCounter
record_calls counter [] = counter
record_calls counter ((provider, now) ∷ calls) =
    record_calls (record_call counter provider now) calls

abbrev pub calls_of : String → List (String × ℕ) → ℕ
calls_of provider [] = 0
calls_of provider ((p, now) ∷ calls) =
    (if str_eq p provider then 1 else 0) + calls_of provider calls

abbrev pub AllOn : ℕ → List (String × ℕ) → Type 0
AllOn day [] = Unit
AllOn day ((p, now) ∷ calls) = (utc_day_start_micros now ≡ day) × AllOn day calls

-- A counter of this day that has been seeded `seen` calls ago and now counts `used`.
record IsSeeded (counter : DailyCallCounter) (provider : String) (day used seen : ℕ) : Type 0 where
  of_day : counter.day ≡ some day
  counted : lookup provider counter.counts ≡ some used
  seeded : lookup provider counter.since_seed ≡ some seen

roll-same :
    (counter : DailyCallCounter) (now : ℕ)
    → counter.day ≡ some (utc_day_start_micros now)
    → roll counter now ≡ counter
unfolding roll
roll-same counter now h = rw h (ground arith)

roll-day :
    (counter : DailyCallCounter) (now : ℕ)
    → (roll counter now).day ≡ some (utc_day_start_micros now)
unfolding roll
roll-day counter now = ground arith

seed-IsSeeded :
    (counter : DailyCallCounter) (provider : String) (used now : ℕ)
    → IsSeeded (seed counter provider used now) provider (utc_day_start_micros now) used 0
unfolding seed
seed-IsSeeded counter provider used now = record {
  of_day = roll-day counter now;
  counted = rw (lookup-insert, eq_refl provider);
  seeded = rw (lookup-insert, eq_refl provider);
}

lookup-bump :
    (q p : String) (m : List (String × ℕ)) (seen : ℕ)
    → lookup p m ≡ some seen
    → lookup p (bump q m (lookup q m)) ≡ some ((if str_eq q p then 1 else 0) + seen)
unfolding bump
lookup-bump q p m seen h = elim (Bool-cases (str_eq q p)) [
  | inl e ↦
      let same : q ≡ p = (eq_iff q p).0 e in
      rw (same, h, lookup-insert, eq_refl p) (ap some (omega arith))
  | inr e ↦ bump-other (lookup q m) e
]
  where
    bump-other :
        (o : Option ℕ)
        → str_eq q p ≡ false
        → lookup p (bump q m o) ≡ some ((if str_eq q p then 1 else 0) + seen)
    bump-other none e = rw (e, h) (ap some (omega arith))
    bump-other (some n) e = rw (lookup-insert, e, h) (ap some (omega arith))

record-IsSeeded :
    (counter : DailyCallCounter) (q p : String) (day used seen now : ℕ)
    → utc_day_start_micros now ≡ day
    → IsSeeded counter p day used seen
    → IsSeeded
        (record_call counter q now)
        p
        day
        ((if str_eq q p then 1 else 0) + used)
        ((if str_eq q p then 1 else 0) + seen)
unfolding record_call
record-IsSeeded counter q p day used seen now today h =
    let e = roll-same counter now (h.of_day ∙ ap some (sym today)) in
    rw e (record {
      of_day = h.of_day;
      counted = counted_next;
      seeded = lookup-bump q p counter.since_seed seen h.seeded;
    })
  where
    counted_next :
        lookup p (insert q (get_or_zero (lookup q counter.counts) + 1) counter.counts)
        ≡ some ((if str_eq q p then 1 else 0) + used)
    counted_next = elim (Bool-cases (str_eq q p)) [
      | inl e ↦
          let same : q ≡ p = (eq_iff q p).0 e in
          rw (lookup-insert, same, eq_refl p, h.counted) (ap some (omega arith))
      | inr e ↦ rw (lookup-insert, e, h.counted) (ap some (omega arith))
    ]

calls-IsSeeded :
    (counter : DailyCallCounter) (provider : String) (day used seen : ℕ) (calls : List (String × ℕ))
    → AllOn day calls
    → IsSeeded counter provider day used seen
    → IsSeeded
        (record_calls counter calls)
        provider
        day
        (calls_of provider calls + used)
        (calls_of provider calls + seen)
calls-IsSeeded counter provider day used seen [] today h = record {
  of_day = h.of_day;
  counted = h.counted ∙ ap some (omega arith);
  seeded = h.seeded ∙ ap some (omega arith);
}
calls-IsSeeded counter provider day used seen ((q, now) ∷ calls) today h =
    let one = if str_eq q provider then 1 else 0 in
    let rest =
      calls-IsSeeded (record_call counter q now) provider day (one + used) (one + seen) calls
        today.1 (record-IsSeeded counter q provider day used seen now today.0 h) in
    record {
      of_day = rest.of_day;
      counted = rest.counted ∙ ap some (omega arith);
      seeded = rest.seeded ∙ ap some (omega arith);
    }

roll-window :
    (counter : DailyCallCounter) (now : ℕ) → (roll counter now).reseed_every ≡ counter.reseed_every
unfolding roll
roll-window counter now = ground arith

calls-window :
    (counter : DailyCallCounter) (calls : List (String × ℕ))
    → (record_calls counter calls).reseed_every ≡ counter.reseed_every
unfolding record_call
calls-window counter [] = refl
calls-window counter ((q, now) ∷ calls) =
    calls-window (record_call counter q now) calls ∙ roll-window counter now

-- After a provider is seeded with a count, and whatever calls the process records on that day, `below`
-- on that day says yes exactly when fewer than `reseed_every` of them were of that provider and the
-- seeded count with them is under the cap.
pub below-after_seed :
    (counter : DailyCallCounter) (provider : String) (used cap seeded_at now : ℕ)
    (calls : List (String × ℕ))
    → AllOn (utc_day_start_micros seeded_at) calls
    → utc_day_start_micros now ≡ utc_day_start_micros seeded_at
    → (below (record_calls (seed counter provider used seeded_at) calls) provider cap now).1 ≡ (
        ltb (calls_of provider calls) counter.reseed_every
        && ltb (used + calls_of provider calls) cap)
unfolding below below_rolled seed
below-after_seed counter provider used cap seeded_at now calls today same =
    let c = record_calls (seed counter provider used seeded_at) calls in
    let h =
      calls-IsSeeded (seed counter provider used seeded_at) provider _ used 0 calls today
        (seed-IsSeeded counter provider used seeded_at) in
    let e = roll-same c now (h.of_day ∙ ap some (sym same)) in
    let w : c.reseed_every ≡ counter.reseed_every =
      calls-window _ calls ∙ roll-window counter seeded_at in
    rw (e, h.counted, h.seeded, w) (ground arith)
