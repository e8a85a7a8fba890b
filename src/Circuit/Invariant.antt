-- ===== src/Circuit/Invariant.antt =====
-- What holds of a breaker of proxy/src/circuit.rs between two calls.
use flock.Base.{ℕ, ◌^◌, ◌≤◌, ◌<◌, ◌≡◌, ◌≢◌, List, [], ◌∷◌, none, arith}
use flock.Circuit.{
  CircuitBreaker, closed, half_open, opened, Event, allows, succeeds, fails, forces, new, step, run,
}

pub record Inv (cb : CircuitBreaker) : Type 0 where
  pub failures_positive : 1 ≤ cb.max_failures
  pub successes_positive : 1 ≤ cb.half_open_max
  pub failures_fit : cb.max_failures < 2 ^ 32
  pub successes_fit : cb.half_open_max < 2 ^ 32
  pub closed_below : cb.state ≡ closed → cb.failures < cb.max_failures
  pub trial_below : cb.state ≡ half_open → cb.consecutive_successes < cb.half_open_max
  pub idle_count : cb.state ≢ half_open → cb.consecutive_successes ≡ 0
  pub opened_stamped : cb.state ≡ opened → cb.last_failure ≢ none

-- a new breaker satisfies the invariant, where its limits are `u32`
pub new-Inv : (m t h : ℕ) → m < 2 ^ 32 → h < 2 ^ 32 → Inv (new m t h)
unfolding new
new-Inv m t h hm hh = ground arith

pub step-Inv : (cb : CircuitBreaker) (e : Event) → Inv cb → Inv (step cb e)
unfolding step
step-Inv cb (allows now) v = ground arith
step-Inv cb succeeds v = ground arith
step-Inv cb (fails now_unix now) v = ground arith
step-Inv cb (forces now_unix now) v = ground arith

-- Any sequence of admissions, successes, failures and forced openings keeps a well-formed breaker
-- well formed: closed below `max_failures`, on trial below `half_open_max`, with a failure's time
-- where it is open, and with no success counted off trial.
pub run-Inv : (cb : CircuitBreaker) (es : List Event) → Inv cb → Inv (run cb es)
unfolding run
run-Inv cb [] v = v
run-Inv cb (e ∷ es) v = run-Inv (step cb e) es (step-Inv cb e v)
