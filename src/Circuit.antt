-- ===== src/Circuit.antt =====
-- proxy/src/circuit.rs: the breaker, its operations and its persisted snapshot. `Instant::now()`
-- is an argument of each operation that reads the clock. Counters are `u32` and wrap, as a release
-- build does.
pub mod Invariant
pub mod Streak
pub mod Recovery
pub mod Persist
mod Tests
use flock.Base.{
  ℕ, zero, suc, ◌+◌, ◌-◌, ◌≡◌, refl, Bool, true, false, Option, none, some, List, [], ◌∷◌, leb, ltb,
  if◌then◌else◌, max, u32, from_secs, before,
}

pub data CircuitState : Type 0 where
  closed half_open opened : CircuitState

pub record CircuitSnapshot : Type 0 where
  pub state : ℕ  -- 0 closed, 1 half-open, 2 open
  pub failures : ℕ
  pub last_failure_unix : ℕ
  pub consecutive_successes : ℕ

pub record CircuitBreaker : Type 0 where
  pub state : CircuitState
  pub failures : ℕ
  pub last_failure : Option ℕ
  pub last_failure_unix : ℕ
  pub consecutive_successes : ℕ
  pub max_failures : ℕ
  pub timeout : ℕ
  pub half_open_max : ℕ

unfoldable pub new : ℕ → ℕ → ℕ → CircuitBreaker
new max_failures timeout half_open_max = record {
  state = closed;
  failures = 0;
  last_failure = none;
  last_failure_unix = 0;
  consecutive_successes = 0;
  max_failures = max max_failures 1;
  timeout = timeout;
  half_open_max = max half_open_max 1;
}

unfoldable pub astmatrix_defaults : CircuitBreaker
unfolding new
astmatrix_defaults = new 5 (from_secs 30) 3

-- `t.elapsed() >= self.timeout`, where a last failure is recorded
abbrev pub timed_out : Option ℕ → ℕ → ℕ → Bool
timed_out none timeout now = false
timed_out (some t) timeout now = leb timeout (now - t)

allow_in : CircuitState → CircuitBreaker → ℕ → CircuitBreaker × Bool
allow_in closed cb now = (cb, true)
allow_in half_open cb now = (cb, true)
allow_in opened cb now =
    if timed_out cb.last_failure cb.timeout now
    then (record cb { state = half_open; consecutive_successes = 0 }, true)
    else (cb, false)

unfoldable pub allow : CircuitBreaker → ℕ → CircuitBreaker × Bool
unfolding allow_in
allow cb now = allow_in cb.state cb now

record_success_in : CircuitState → CircuitBreaker → CircuitBreaker
record_success_in closed cb = record cb { failures = 0 }
record_success_in half_open cb =
    let n = u32 (cb.consecutive_successes + 1) in
    if leb cb.half_open_max n
    then record cb { state = closed; failures = 0; consecutive_successes = 0 }
    else record cb { consecutive_successes = n }
record_success_in opened cb = cb

unfoldable pub record_success : CircuitBreaker → CircuitBreaker
unfolding record_success_in
record_success cb = record_success_in cb.state cb

-- the private `open`
unfoldable pub open_circuit : CircuitBreaker → ℕ → ℕ → CircuitBreaker
open_circuit cb now_unix now = record cb {
  state = opened;
  last_failure = some now;
  last_failure_unix = now_unix;
  consecutive_successes = 0;
}

record_failure_in : CircuitState → CircuitBreaker → ℕ → ℕ → CircuitBreaker
unfolding open_circuit
record_failure_in closed cb now_unix now =
    let cb' : CircuitBreaker = record cb { failures = u32 (cb.failures + 1) } in
    if leb cb'.max_failures cb'.failures then open_circuit cb' now_unix now else cb'
record_failure_in half_open cb now_unix now = open_circuit cb now_unix now
record_failure_in opened cb now_unix now = cb

unfoldable pub record_failure : CircuitBreaker → ℕ → ℕ → CircuitBreaker
unfolding record_failure_in
record_failure cb now_unix now = record_failure_in cb.state cb now_unix now

unfoldable pub force_open : CircuitBreaker → ℕ → ℕ → CircuitBreaker
unfolding open_circuit
force_open cb now_unix now = open_circuit cb now_unix now

abbrev pub state_code : CircuitState → ℕ
state_code closed = 0
state_code half_open = 1
state_code opened = 2

abbrev pub state_of_code : ℕ → CircuitState
state_of_code (suc zero) = half_open
state_of_code (suc (suc zero)) = opened
state_of_code _ = closed

unfoldable pub snapshot : CircuitBreaker → CircuitSnapshot
snapshot cb = record {
  state = state_code cb.state;
  failures = cb.failures;
  last_failure_unix = cb.last_failure_unix;
  consecutive_successes = cb.consecutive_successes;
}

restored : CircuitSnapshot → Option ℕ → CircuitBreaker
unfolding astmatrix_defaults
restored snap last_failure = record astmatrix_defaults {
  state = state_of_code snap.state;
  failures = snap.failures;
  last_failure = last_failure;
  last_failure_unix = snap.last_failure_unix;
  consecutive_successes = snap.consecutive_successes;
}

-- `none` is the panic of `Instant::now() - Duration::from_secs(age)`.
unfoldable pub restore : CircuitSnapshot → ℕ → ℕ → Option CircuitBreaker
unfolding restored
restore snap now_unix now =
    if ltb 0 snap.last_failure_unix
    then elim (before now (from_secs (now_unix - snap.last_failure_unix))) [
      | none ↦ none
      | some t ↦ some (restored snap (some t))
    ]
    else some (restored snap none)

-- What the router and an operator do to a breaker, in any order, with the clock at each step.
pub data Event : Type 0 where
  allows : ℕ → Event
  succeeds : Event
  fails forces : ℕ → ℕ → Event

unfoldable pub step : CircuitBreaker → Event → CircuitBreaker
unfolding allow record_success record_failure force_open
step cb (allows now) = (allow cb now).0
step cb succeeds = record_success cb
step cb (fails now_unix now) = record_failure cb now_unix now
step cb (forces now_unix now) = force_open cb now_unix now

unfoldable pub run : CircuitBreaker → List Event → CircuitBreaker
run cb [] = cb
run cb (e ∷ es) = run (step cb e) es
