-- ===== src/Llm/Limiter/Grants.antt =====
-- The token bucket (src/hrmosaic/core/llm/limiter.py) always gives a token in the end, and never gives
-- more than its capacity and what has come in since.
use quantic_mosaic.Prelude.{
  ℕ, zero, suc, ◌+◌, ◌-◌, ◌*◌, ◌≤◌, ◌<◌, min, ◌≡◌, refl, sym, ap, ◌∙◌, inl, inr, true, false, some,
  List, [], ◌∷◌, length, arith, tests, leb, leb→le, Bool-cases,
}
use mathlib.Core.Path.{subst}
use native.Mathlib.Nat.{add-mul}
use quantic_mosaic.Llm.Limiter.{
  Bucket, full, refill, shortfall, acquire_from, acquire, then_run, run,
}

some_eq : {A : Type 0} {a b : A} → some a ≡ some b → a ≡ b
some_eq e = cc

not_leb : {a b : ℕ} → leb a b ≡ false → b < a
not_leb h = ground arith

-- One factor of a product, where the other is not 0.
le_mul_left : (m n : ℕ) → 1 ≤ m → n ≤ m * n
le_mul_left zero n h = absurd (omega arith)
le_mul_left (suc m) n h = omega (arith, add-mul m 1 n)

module _ (one capacity rate : ℕ) where
  -- What a pass has to go on.
  abbrev supply : ℕ → Bucket → ℕ
  supply now b = b.tokens + (now - b.updated) * rate

  -- A pass that finds too little has kept all of it.
  too_little :
      (now : ℕ) (b : Bucket)
      → 1 ≤ capacity
      → leb one (refill one capacity rate now b).tokens ≡ false
      → ((refill one capacity rate now b).tokens ≡ supply now b) × (supply now b < one)
  unfolding refill
  too_little now b c e = omega (arith, le_mul_left capacity one c, not_leb e)

  after_sleep :
      (now s : ℕ) (b : Bucket)
      → 1 ≤ rate
      → 1 ≤ s
      → (refill one capacity rate now b).tokens + 1
        ≤ supply (now + s) (refill one capacity rate now b)
  unfolding refill
  after_sleep now s b r h =
      let e : now + s - now ≡ s = omega arith in rw e (omega (arith, le_mul_left s rate h))

  acquire_from_returns :
      (sleep : ℕ → ℕ → ℕ) (fuel slept now : ℕ) (b : Bucket)
      → 1 ≤ rate
      → 1 ≤ capacity
      → ((n d : ℕ) → 1 ≤ sleep n d)
      → one + 1 ≤ fuel + min one (supply now b)
      → (r : ℕ × Bucket) × (acquire_from one capacity rate sleep fuel slept now b ≡ some r)
  unfolding acquire_from
  acquire_from_returns sleep zero slept now b r c s h = absurd (omega arith)
  acquire_from_returns sleep (suc fuel) slept now b r c s h =
      let filled = refill one capacity rate now b in
      elim (Bool-cases (leb one filled.tokens)) [
        | inl e ↦ ((now, record filled { tokens = filled.tokens - one }), rw e refl)
        | inr e ↦
            let (k, l) = too_little now b c e in
            let d = sleep slept (shortfall one capacity rate filled) in
            let m = after_sleep now d b r (s slept (shortfall one capacity rate filled)) in
            let (out, f) =
              acquire_from_returns sleep fuel (slept + 1) (now + d) filled r c s (omega arith) in
            (out, rw e f)
      ]

  -- Time that passes in two stretches fills the bucket as one.
  two_stretches : (a b c : ℕ) → a ≤ b → b ≤ c → (b - a) * rate + (c - b) * rate ≡ (c - a) * rate
  two_stretches a b c h k = sym (add-mul (b - a) (c - b) rate) ∙ ap (λ n. n * rate) (omega arith)

  -- A token that was taken had come in, or was there.
  record Spends (b : Bucket) (now : ℕ) (out : ℕ × Bucket) : Type 0 where
    later : now ≤ out.0
    set_at : out.1.updated ≡ out.0
    covered : out.1.tokens + one ≤ b.tokens + (out.0 - b.updated) * rate

  taken :
      (now : ℕ) (b : Bucket)
      → leb one (refill one capacity rate now b).tokens ≡ true
      → Spends b now (
        now,
        record (refill one capacity rate now b) {
          tokens = (refill one capacity rate now b).tokens - one;
        },
      )
  unfolding refill
  taken now b e = record {
    later = omega arith;
    set_at = refl;
    covered = omega (tests, leb→le _ _ e);
  }

  refill_covered : (now : ℕ) (b : Bucket) → (refill one capacity rate now b).tokens ≤ supply now b
  unfolding refill
  refill_covered now b = omega arith

  refill-updated : (now : ℕ) (b : Bucket) → (refill one capacity rate now b).updated ≡ now
  unfolding refill
  refill-updated now b = refl

  acquire_from-Spends :
      (sleep : ℕ → ℕ → ℕ) (fuel slept now : ℕ) (b : Bucket) (out : ℕ × Bucket)
      → b.updated ≤ now
      → acquire_from one capacity rate sleep fuel slept now b ≡ some out
      → Spends b now out
  unfolding acquire_from
  acquire_from-Spends sleep zero slept now b out u h = cc
  acquire_from-Spends sleep (suc fuel) slept now b out u h =
      let filled = refill one capacity rate now b in
      let d = sleep slept (shortfall one capacity rate filled) in
      elim (Bool-cases (leb one filled.tokens)) [
        | inl e ↦ subst (Spends b now) (some_eq (rw e at h)) (taken now b e)
        | inr e ↦
            let k =
              acquire_from-Spends sleep fuel (slept + 1) (now + d) filled out
                (omega (arith, refill-updated now b)) (rw e at h) in
            record {
              later = omega (arith, k.later);
              set_at = k.set_at;
              covered = omega (
                arith,
                k.covered,
                k.later,
                refill_covered now b,
                refill-updated now b,
                two_stretches b.updated now out.0 u (omega (arith, k.later)),
              );
            }
      ]

  acquire-Spends :
      (sleep : ℕ → ℕ → ℕ) (now : ℕ) (b : Bucket)
      → 1 ≤ rate
      → 1 ≤ capacity
      → ((n d : ℕ) → 1 ≤ sleep n d)
      → b.updated ≤ now
      → (out : ℕ × Bucket) × (acquire one capacity rate sleep now b ≡ some out) × Spends b now out
  unfolding acquire
  acquire-Spends sleep now b r c s u =
      let (out, e) = acquire_from_returns sleep (one + 1) 0 now b r c s (omega arith) in
      (out, e, acquire_from-Spends sleep (one + 1) 0 now b out u e)

  -- The calls of a run end, and their tokens were there or came in.
  record Covers (pauses : List ℕ) (b : Bucket) (now : ℕ) (out : ℕ × Bucket) : Type 0 where
    later : now ≤ out.0
    covered : length pauses * one + out.1.tokens ≤ b.tokens + (out.0 - b.updated) * rate

  run-Covers :
      (sleep : ℕ → ℕ → ℕ) (pauses : List ℕ) (now : ℕ) (b : Bucket)
      → 1 ≤ rate
      → 1 ≤ capacity
      → ((n d : ℕ) → 1 ≤ sleep n d)
      → b.updated ≤ now
      → (out : ℕ × Bucket) × (run one capacity rate sleep pauses now b ≡ some out)
        × Covers pauses b now out
  unfolding run
  run-Covers sleep [] now b r c s u =
      ((now, b), refl, record { later = omega arith; covered = omega arith })
  run-Covers sleep (pause ∷ more) now b r c s u =
      let (mid, e, k) = acquire-Spends sleep (now + pause) b r c s (omega arith) in
      let (out, f, l) = run-Covers sleep more mid.0 mid.1 r c s (omega (arith, k.set_at)) in
      (
        out,
        ap (then_run (run one capacity rate sleep more)) e ∙ f,
        record {
          later = omega (arith, k.later, l.later);
          covered = omega (
            arith,
            add-mul (length more) 1 one,
            k.covered,
            k.set_at,
            k.later,
            rw k.set_at at l.covered,
            l.later,
            two_stretches b.updated mid.0 out.0 (omega (arith, k.later)) (omega (arith, l.later)),
          );
        },
      )

  -- Every call gets its token in the end: each acquire of a run needs at most `one` sleeps and returns,
  -- whatever the pauses between the calls. And the run keeps to the rate: the tokens given until it ends
  -- are at most the capacity of the bucket and what has come in since it was full. The conditions are
  -- that the rate and the capacity are positive, as the constructor demands, and that a sleep lasts at
  -- least one tick.
  pub run_bounded :
      (sleep : ℕ → ℕ → ℕ) (pauses : List ℕ) (begin : ℕ)
      → 1 ≤ rate
      → 1 ≤ capacity
      → ((n d : ℕ) → 1 ≤ sleep n d)
      → (out : ℕ × Bucket) × (run one capacity rate sleep pauses begin
            (full one capacity rate begin)
          ≡ some out)
        × (length pauses * one ≤ capacity * one + (out.0 - begin) * rate)
  run_bounded sleep pauses begin r c s =
      let (out, e, k) =
        run-Covers sleep pauses begin (full one capacity rate begin) r c s (omega arith) in
      (out, e, omega (arith, k.covered))
