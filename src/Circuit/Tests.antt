-- ===== src/Circuit/Tests.antt =====
-- Runs of a breaker of proxy/src/circuit.rs, and the theorems at concrete inputs.
use flock.Base.{
  ◌≡◌, refl, false, some, none, List, [], ◌∷◌, arith, leb, if◌then◌else◌, replicate, from_secs,
}
use flock.Circuit.{
  CircuitBreaker, CircuitSnapshot, closed, half_open, opened, Event, allows, succeeds, fails, new,
  astmatrix_defaults, allow, step, run, snapshot, restore,
}
use flock.Circuit.Invariant.{Inv, new-Inv, run-Inv}
use flock.Circuit.Streak.{streak, reaches, run_opens_iff_streak}
use flock.Circuit.Recovery.{opened_holds, run_recovers, trial_failure_reopens}
use flock.Circuit.Persist.{restore-snapshot, restore_unstamped_stuck}

abbrev start : CircuitBreaker
start = new 2 10 2

abbrev mixed : List Event
mixed = fails 5 50 ∷ succeeds ∷ fails 6 60 ∷ fails 7 70 ∷ []

start-Inv : Inv start
start-Inv = new-Inv 2 10 2 (omega arith) (omega arith)

mixed_opens : (run start mixed).state ≡ opened
unfolding run step new
mixed_opens = refl

run-Inv_example : Inv (run start mixed)
run-Inv_example = run-Inv start mixed start-Inv

run_opens_iff_streak_example :
    ((run start mixed).state ≡ (if reaches start.max_failures 0 mixed then opened else closed))
    × ((run start mixed).failures
        ≡ (if reaches start.max_failures 0 mixed then start.max_failures else streak 0 mixed))
unfolding new
run_opens_iff_streak_example = run_opens_iff_streak start mixed start-Inv refl tt

abbrev tripped : CircuitBreaker
tripped = run start mixed

opened_holds_example : run tripped (fails 8 75 ∷ allows 79 ∷ succeeds ∷ []) ≡ tripped
unfolding run step new
opened_holds_example =
    opened_holds tripped 70 (fails 8 75 ∷ allows 79 ∷ succeeds ∷ []) refl refl (omega arith)
      (omega arith)

run_recovers_example :
    let cb' = run tripped (allows 80 ∷ replicate 2 succeeds) in
    (cb'.state ≡ (if leb tripped.half_open_max 2 then closed else half_open))
    × (cb'.failures ≡ (if leb tripped.half_open_max 2 then 0 else tripped.failures))
unfolding run step new
run_recovers_example = run_recovers tripped 70 80 2 run-Inv_example refl refl (omega arith)

trial : CircuitBreaker
unfolding run step new
trial = run tripped (allows 80 ∷ [])

trial_failure_reopens_example : (step trial (fails 9 81)).state ≡ opened
unfolding trial
trial_failure_reopens_example = (trial_failure_reopens trial 9 81 refl).0

abbrev persisted : CircuitSnapshot
persisted = record { state = 2; failures = 5; last_failure_unix = 1000; consecutive_successes = 0 }

-- the breaker that a restart at 1031 s restores, with the monotonic clock at 40 s
abbrev woken : CircuitBreaker
woken = record {
  state = opened;
  failures = 5;
  last_failure = some (from_secs 9);
  last_failure_unix = 1000;
  consecutive_successes = 0;
  max_failures = 5;
  timeout = from_secs 30;
  half_open_max = 3;
}

restore-snapshot_example :
    (cb : CircuitBreaker) × (restore (snapshot woken) 1031 (from_secs 40) ≡ some cb)
    × (snapshot cb ≡ snapshot woken)
restore-snapshot_example = restore-snapshot woken 1031 (from_secs 40) (omega arith)

abbrev unstamped : CircuitBreaker
unstamped = record woken { last_failure = none; last_failure_unix = 0 }

restore_unstamped_stuck_example :
    (allow (run unstamped (succeeds ∷ allows 70 ∷ fails 1 80 ∷ [])) (from_secs 999)).1 ≡ false
unfolding restore astmatrix_defaults
restore_unstamped_stuck_example =
    restore_unstamped_stuck (record persisted { last_failure_unix = 0 }) 1031 (from_secs 40)
      (from_secs 999) unstamped (succeeds ∷ allows 70 ∷ fails 1 80 ∷ []) refl refl refl tt
