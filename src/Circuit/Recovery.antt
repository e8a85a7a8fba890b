-- ===== src/Circuit/Recovery.antt =====
-- How an open breaker of proxy/src/circuit.rs comes back: the timeout, then the trial.
use flock.Base.{
  ℕ, zero, suc, ◌+◌, ◌≤◌, ◌<◌, ◌≡◌, refl, true, false, some, Bool-cases, inl, inr, List, [], ◌∷◌,
  arith, leb, if◌then◌else◌, replicate,
}
use flock.Circuit.{
  CircuitBreaker, closed, half_open, opened, Event, allows, succeeds, fails, forces, step, run,
}
use flock.Circuit.Invariant.{Inv, step-Inv}

-- no event is later than the timeout's end, and no operator acts
abbrev pub Early : ℕ → List Event → Type 0
Early deadline [] = Unit
Early deadline (allows now ∷ es) = (now < deadline) × Early deadline es
Early deadline (succeeds ∷ es) = Early deadline es
Early deadline (fails _ _ ∷ es) = Early deadline es
Early deadline (forces _ _ ∷ es) = ⊥

-- Until the timeout has passed, no admission, success or failure changes an open breaker.
pub opened_holds :
    (cb : CircuitBreaker) (t : ℕ) (es : List Event)
    → cb.state ≡ opened
    → cb.last_failure ≡ some t
    → 0 < cb.timeout
    → Early (t + cb.timeout) es
    → run cb es ≡ cb
unfolding run step
opened_holds cb t [] o l p h = refl
opened_holds cb t (allows now ∷ es) o l p h = ground (arith, opened_holds cb t es o l p h.1)
opened_holds cb t (succeeds ∷ es) o l p h = ground (arith, opened_holds cb t es o l p h)
opened_holds cb t (fails u now ∷ es) o l p h = ground (arith, opened_holds cb t es o l p h)
opened_holds cb t (forces u now ∷ es) o l p h = absurd h

closed_stays :
    (cb : CircuitBreaker) (k : ℕ)
    → cb.state ≡ closed
    → cb.failures ≡ 0
    → let cb' = run cb (replicate k succeeds) in (cb'.state ≡ closed) × (cb'.failures ≡ 0)
unfolding run step
closed_stays cb zero c f = (c, f)
closed_stays cb (suc k) c f =
    ground (arith, closed_stays (step cb succeeds) k (ground arith) (ground arith))

-- what one success does in a trial
trial_step :
    (cb : CircuitBreaker)
    → Inv cb
    → cb.state ≡ half_open
    → let cb' = step cb succeeds in
      (cb'.half_open_max ≡ cb.half_open_max)
      × (leb cb.half_open_max (suc cb.consecutive_successes) ≡ true
          → (cb'.state ≡ closed) × (cb'.failures ≡ 0))
      × (leb cb.half_open_max (suc cb.consecutive_successes) ≡ false
          → (cb'.state ≡ half_open)
            × (cb'.consecutive_successes ≡ suc cb.consecutive_successes)
            × (cb'.failures ≡ cb.failures))
unfolding step
trial_step cb v h = ground arith

-- The successes of a trial close the breaker once there are `half_open_max` of them, counting
-- those that it has seen, and not before.
trial_counts :
    (cb : CircuitBreaker) (k : ℕ)
    → Inv cb
    → cb.state ≡ half_open
    → let cb' = run cb (replicate k succeeds) in
      (cb'.state
        ≡ (if leb cb.half_open_max (cb.consecutive_successes + k) then closed else half_open))
      × (cb'.failures
          ≡ (if leb cb.half_open_max (cb.consecutive_successes + k) then 0 else cb.failures))
unfolding run
trial_counts cb zero v h = (ground arith, ground arith)
trial_counts cb (suc k) v h =
    elim (Bool-cases (leb cb.half_open_max (suc cb.consecutive_successes))) [
      | inl enough ↦ ground (
        arith,
        closed_stays (step cb succeeds) k ((trial_step cb v h).1 enough).0
            ((trial_step cb v h).1 enough).1,
      )
      | inr short ↦ ground (
        arith,
        trial_step cb v h,
        trial_counts (step cb succeeds) k (step-Inv cb succeeds v) ((trial_step cb v h).2 short).0,
      )
    ]

trial_starts :
    (cb : CircuitBreaker) (t now : ℕ)
    → cb.state ≡ opened
    → cb.last_failure ≡ some t
    → t + cb.timeout ≤ now
    → let cb' = step cb (allows now) in
      (cb'.state ≡ half_open)
      × (cb'.consecutive_successes ≡ 0)
      × (cb'.half_open_max ≡ cb.half_open_max)
      × (cb'.failures ≡ cb.failures)
unfolding step
trial_starts cb t now o l h = ground arith

-- After the timeout an open breaker that admits a request and then sees `k` successes is closed,
-- with no failure counted, if `k` is at least `half_open_max`, and otherwise still on trial, with
-- the failures as they were.
pub run_recovers :
    (cb : CircuitBreaker) (t now k : ℕ)
    → Inv cb
    → cb.state ≡ opened
    → cb.last_failure ≡ some t
    → t + cb.timeout ≤ now
    → let cb' = run cb (allows now ∷ replicate k succeeds) in
      (cb'.state ≡ (if leb cb.half_open_max k then closed else half_open))
      × (cb'.failures ≡ (if leb cb.half_open_max k then 0 else cb.failures))
unfolding run
run_recovers cb t now k v o l h = ground (
  arith,
  trial_starts cb t now o l h,
  trial_counts (step cb (allows now)) k (step-Inv cb (allows now) v)
      (trial_starts cb t now o l h).0,
)

-- One failure on trial opens the breaker again, stamped with the time of that failure, whatever
-- the counts are.
pub trial_failure_reopens :
    (cb : CircuitBreaker) (u now : ℕ)
    → cb.state ≡ half_open
    → let cb' = step cb (fails u now) in
      (cb'.state ≡ opened)
      × (cb'.last_failure ≡ some now)
      × (cb'.last_failure_unix ≡ u)
      × (cb'.consecutive_successes ≡ 0)
unfolding step
trial_failure_reopens cb u now h = ground arith
