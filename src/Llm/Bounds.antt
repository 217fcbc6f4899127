-- ===== src/Llm/Bounds.antt =====
-- The bounds of one logical model call (src/hrmosaic/core/llm/base.py), whatever the round trips cost
-- and answer.
use quantic_mosaic.Prelude.{
  ℕ, ◌+◌, ◌-◌, ◌≤◌, ◌≡◌, refl, ap, ◌∙◌, ◌⊎◌, inl, inr, Bool, true, false, ◌&&◌, Option, none, some,
  List, [], ◌∷◌, ◌++◌, arith, leb, ltb, if◌then◌else◌, Bool-cases,
}
use quantic_mosaic.Llm.Call.{
  Attempts, no_attempts, Adapter, primary, fallback, Answer, Invoke, max_backoff, under_timeout,
  settle, second_trip, delay_of, back_off, after_first, call_with_failover,
}

-- The round trips of a call that has not gone to a second one, and of one that has.
abbrev pub IsRoute : Bool → Bool → List Adapter → Type 0
IsRoute has_fallback failed_over trips =
    ((trips ≡ primary ∷ []) × (failed_over ≡ false))
    ⊎ ((trips ≡ primary ∷ (if has_fallback then fallback else primary) ∷ [])
        × (failed_over ≡ has_fallback))

-- What holds of the attempts of a call when it ends.
pub record IsBounded (has_fallback : Bool) (budget : ℕ) (r : Attempts) : Type 0 where
  pub route : IsRoute has_fallback r.failed_over r.trips
  pub elapsed_le : r.elapsed ≤ budget
  pub slept_le : r.slept ≤ max_backoff
  pub retry_le : r.retry_count ≤ 1

-- What holds of the attempts of a call before its second round trip.
record IsFirst (budget : ℕ) (r : Attempts) : Type 0 where
  one_trip : r.trips ≡ primary ∷ []
  stays : r.failed_over ≡ false
  within : r.elapsed ≤ budget
  slept_le : r.slept ≤ max_backoff
  retry_le : r.retry_count ≤ 1

under_timeout-elapsed :
    (budget : ℕ) (reply : ℕ × Answer) (adapter : Adapter) (r : Attempts)
    → (under_timeout budget reply adapter r).0.elapsed ≤ budget
unfolding under_timeout
under_timeout-elapsed budget (cost, answer) adapter r = ground arith

under_timeout-keeps :
    (budget : ℕ) (reply : ℕ × Answer) (adapter : Adapter) (r : Attempts)
    → ((under_timeout budget reply adapter r).0.trips ≡ r.trips ++ adapter ∷ [])
      × ((under_timeout budget reply adapter r).0.failed_over ≡ r.failed_over)
      × ((under_timeout budget reply adapter r).0.slept ≡ r.slept)
      × ((under_timeout budget reply adapter r).0.retry_count ≡ r.retry_count)
unfolding under_timeout
under_timeout-keeps budget (cost, answer) adapter r =
    elim (Bool-cases (ltb budget (r.elapsed + cost))) [
      | inl e ↦ rw e (refl, refl, refl, refl)
      | inr e ↦ rw e (refl, refl, refl, refl)
    ]

settle-IsBounded :
    (has_fallback : Bool) (budget : ℕ) (r : Attempts) (o : Option Answer)
    → IsBounded has_fallback budget r
    → IsBounded has_fallback budget (settle (r, o))
unfolding settle
settle-IsBounded has_fallback budget r none h = h
settle-IsBounded has_fallback budget r (some (Answer.completed c)) h = record {
  route = h.route;
  elapsed_le = h.elapsed_le;
  slept_le = h.slept_le;
  retry_le = h.retry_le;
}
settle-IsBounded has_fallback budget r (some (Answer.failed e)) h = record {
  route = h.route;
  elapsed_le = h.elapsed_le;
  slept_le = h.slept_le;
  retry_le = h.retry_le;
}

trip-IsBounded :
    (invoke : Invoke) (budget : ℕ) (has_fallback : Bool) (r : Attempts)
    → IsFirst budget r
    → IsBounded has_fallback budget (second_trip invoke has_fallback budget r)
unfolding second_trip
trip-IsBounded invoke budget true r h =
    let r' = record r { failed_over = true } in
    let (trips, over, slept, retries) =
      under_timeout-keeps budget (invoke 1 fallback) fallback r' in
    settle-IsBounded true budget (under_timeout budget (invoke 1 fallback) fallback r').0
      (under_timeout budget (invoke 1 fallback) fallback r').1
      (record {
        route = inr (trips ∙ ap (λ t. t ++ fallback ∷ []) h.one_trip, over);
        elapsed_le = under_timeout-elapsed budget (invoke 1 fallback) fallback r';
        slept_le = rw slept h.slept_le;
        retry_le = rw retries h.retry_le;
      })
trip-IsBounded invoke budget false r h =
    let (trips, over, slept, retries) = under_timeout-keeps budget (invoke 1 primary) primary r in
    settle-IsBounded false budget (under_timeout budget (invoke 1 primary) primary r).0
      (under_timeout budget (invoke 1 primary) primary r).1
      (record {
        route = inr (trips ∙ ap (λ t. t ++ primary ∷ []) h.one_trip, over ∙ h.stays);
        elapsed_le = under_timeout-elapsed budget (invoke 1 primary) primary r;
        slept_le = rw slept h.slept_le;
        retry_le = rw retries h.retry_le;
      })

back_off-IsFirst :
    (budget delay : ℕ) (r : Attempts)
    → IsFirst budget r
    → r.retry_count ≡ 0
    → IsFirst budget (back_off budget delay r)
unfolding back_off
back_off-IsFirst budget delay r h fresh =
    elim (Bool-cases (leb delay max_backoff && ltb delay (budget - r.elapsed))) [
      | inl e ↦ rw e (record {
        one_trip = h.one_trip;
        stays = h.stays;
        within = ground (arith, e);
        slept_le = ground (arith, e);
        retry_le = omega (arith, fresh);
      })
      | inr e ↦ rw e h
    ]

first-IsBounded :
    (budget : ℕ) (has_fallback : Bool) (r r' : Attempts)
    → IsFirst budget r
    → r'.trips ≡ r.trips
    → r'.failed_over ≡ r.failed_over
    → r'.elapsed ≡ r.elapsed
    → r'.slept ≡ r.slept
    → r'.retry_count ≡ r.retry_count
    → IsBounded has_fallback budget r'
first-IsBounded budget has_fallback r r' h t f e s c = record {
  route = inl (t ∙ h.one_trip, f ∙ h.stays);
  elapsed_le = rw e h.within;
  slept_le = rw s h.slept_le;
  retry_le = rw c h.retry_le;
}

module _ (invoke : Invoke) (has_fallback : Bool) (budget : ℕ) where
  after-IsBounded :
      (r : Attempts) (o : Option Answer)
      → IsFirst budget r
      → r.retry_count ≡ 0
      → IsBounded has_fallback budget (after_first invoke has_fallback budget (r, o))
  unfolding after_first
  after-IsBounded r none h fresh =
      first-IsBounded budget has_fallback r r h refl refl refl refl refl
  after-IsBounded r (some (Answer.completed c)) h fresh =
      first-IsBounded budget has_fallback r _ h refl refl refl refl refl
  after-IsBounded r (some (Answer.failed e)) h fresh = elim (Bool-cases e.retryable) [
    | inl t ↦ rw t (
        trip-IsBounded invoke budget has_fallback _
          (back_off-IsFirst budget (delay_of e) r h fresh))
    | inr t ↦ rw t (first-IsBounded budget has_fallback r _ h refl refl refl refl refl)
  ]

  -- Whatever each round trip costs and answers, a logical call makes one round trip, to the primary,
  -- or two, the second to the fallback exactly where one is configured, which `failed_over` says; it
  -- takes no longer than its budget, backs off at most `max_backoff` and retries at most once.
  pub call_with_failover-IsBounded :
      IsBounded has_fallback budget (call_with_failover invoke has_fallback budget)
  unfolding call_with_failover
  call_with_failover-IsBounded =
      let (trips, over, slept, retries) =
        under_timeout-keeps budget (invoke 0 primary) primary no_attempts in
      after-IsBounded (under_timeout budget (invoke 0 primary) primary no_attempts).0
        (under_timeout budget (invoke 0 primary) primary no_attempts).1
        (record {
          one_trip = trips;
          stays = over;
          within = under_timeout-elapsed budget (invoke 0 primary) primary no_attempts;
          slept_le = rw slept (omega arith);
          retry_le = rw retries (omega arith);
        })
        retries
