-- ===== src/Health/Tests.antt =====
-- Runs of the health map and of its database, and an instance of each theorem about them.
use flock.Base.{
  ℕ, ◌+◌, ◌*◌, ◌/◌, ◌≡◌, refl, true, false, none, some, List, [], ◌∷◌, String-discrete, find,
  insert, pos, negsuc, as_i64, as_u64, from_secs, arith, All,
}
use flock.Circuit.{CircuitSnapshot}
use flock.Governor.Persist.{GovernorSnapshot}
use flock.Health.{
  Host, PersistOp, circuit, governor, lane_windows, cooldown, shutdown, empty, is_healthy, get_elo,
  get_sticky, latency_ms, lookup, record_health, record_latency, set_elo, set_sticky,
  sweep_expired_stickies, average,
}
use flock.Health.Store.{Pair-discrete, no_rows, write_windows, apply_op, writer_loop}
use flock.Health.Restore.{restore, read_windows, read_window, read_cooldowns}
use flock.Health.Changes.{
  Change, Fits, health_recorded, latency_recorded, elo_set, sticky_set, stickies_swept, step, run,
}
use flock.Health.Restart.{restarted, remembered, restarted-remembered, restarted-latency_ms}
use flock.Health.Replay.{last_sample}
use flock.Health.Runtime.{restore-writer_loop, OpFits}
use flock.Health.Dates.{days_from_civil, civil_days}
use flock.Health.Dates.Calendar.{days_from_civil-day_number, day_number}

-- latencies in whole seconds, and the JSON text as the list that it stands for
abbrev test_host : Host
test_host = record {
  Float = ℕ;
  as_secs_f64 = λ d. d / 1000000000;
  times = λ a b. a * b;
  plus = λ a b. a + b;
  thousand = 1000;
  seven_tenths = 7;
  three_tenths = 3;
  Json = List ℕ;
  to_json = λ xs. some xs;
  from_json = λ xs. some xs;
}

abbrev changes : List Change
changes =
    health_recorded "nim" false 100
    ∷ latency_recorded "nim" (from_secs 1)
    ∷ latency_recorded "nim" (from_secs 2)
    ∷ elo_set "nim" (pos 1600)
    ∷ sticky_set "ann" "nim" (from_secs 60) 100
    ∷ sticky_set "bob" "nim" (from_secs 10) 100
    ∷ stickies_swept 120
    ∷ []

test_memory :
    (is_healthy (remembered test_host changes) "nim" ≡ false)
    × (is_healthy (remembered test_host changes) "other" ≡ true)
    × (get_elo (remembered test_host changes) "nim" ≡ pos 1600)
    × (get_sticky (remembered test_host changes) "ann" 159 ≡ some "nim")
    × (get_sticky (remembered test_host changes) "ann" 160 ≡ none)
    × (get_sticky (remembered test_host changes) "bob" 105 ≡ none)
unfolding run step record_health record_latency average set_elo set_sticky sweep_expired_stickies
    empty is_healthy get_elo get_sticky find insert String-discrete
test_memory = (refl, refl, refl, refl, refl, refl)

-- the average in memory and the last sample in the database are not the same number
test_latency :
    (latency_ms (remembered test_host changes) "nim" ≡ some 44000)
    × (last_sample test_host changes "nim" none ≡ some 2000)
unfolding run step record_health record_latency average set_elo set_sticky sweep_expired_stickies
    empty latency_ms find insert String-discrete
test_latency = (refl, refl)

changes-Fits : All Fits changes
changes-Fits = (omega arith, (tt, (tt, (tt, (omega arith, (omega arith, (omega arith, tt)))))))

restarted-remembered_example :
    (is_healthy (restarted test_host changes 130) "nim"
      ≡ is_healthy (remembered test_host changes) "nim")
    × (get_elo (restarted test_host changes 130) "nim"
        ≡ get_elo (remembered test_host changes) "nim")
    × (get_sticky (restarted test_host changes 130) "ann" 150
        ≡ get_sticky (remembered test_host changes) "ann" 150)
restarted-remembered_example =
    restarted-remembered test_host changes 130 150 "nim" "ann" changes-Fits (omega arith)
      (omega arith)

restarted-latency_ms_example :
    latency_ms (restarted test_host changes 130) "nim" ≡ last_sample test_host changes "nim" none
restarted-latency_ms_example = restarted-latency_ms test_host changes 130 "nim" changes-Fits

abbrev test_circuit : CircuitSnapshot
test_circuit = record { state = 2; failures = 5; last_failure_unix = 90; consecutive_successes = 0 }

abbrev test_governor : GovernorSnapshot
test_governor = record {
  worker_limit = 8;
  last_exhausted_unix = 80;
  last_adjusted_unix = 81;
  blocked_until_unix = 95;
}

abbrev ops : List (PersistOp test_host)
ops =
    circuit "nim" (record test_circuit { state = 0 })
    ∷ circuit "nim" test_circuit
    ∷ governor "nim" "m" test_governor
    ∷ lane_windows "nim" (record { key = "k"; sent_ms = 1000 ∷ 90000 ∷ [] } ∷ [])
    ∷ cooldown "nim" "k" 300000
    ∷ cooldown "nim" "l" 100000
    ∷ shutdown
    ∷ circuit "nim" (record test_circuit { failures = 9 })
    ∷ []

test_runtime :
    ((restore (writer_loop no_rows ops) 200).runtime.lane_windows
      ≡ ("nim", record { key = "k"; sent_ms = 90000 ∷ [] } ∷ []) ∷ [])
    × ((restore (writer_loop no_rows ops) 200).runtime.cooldowns ≡ (("nim", "k"), 300000) ∷ [])
unfolding restore writer_loop apply_op write_windows no_rows read_windows read_window read_cooldowns
    find insert String-discrete Pair-discrete as_i64 as_u64
test_runtime = (refl, refl)

ops-OpFits : All OpFits ops
ops-OpFits = ground arith

restore-writer_loop_example :
    (lookup "nim" (restore (writer_loop no_rows ops) 200).runtime.circuits ≡ some test_circuit)
    × (find Pair-discrete ("nim", "m") (restore (writer_loop no_rows ops) 200).runtime.governors
        ≡ some test_governor)
unfolding String-discrete Pair-discrete
restore-writer_loop_example = restore-writer_loop "nim" ("nim", "m") ops 200 ops-OpFits

test_days :
    (days_from_civil (pos 2026) (pos 9) (pos 17) ≡ some 20713)
    × (days_from_civil (pos 2023) (pos 2) (pos 31) ≡ days_from_civil (pos 2023) (pos 3) (pos 3))
    × (days_from_civil (pos 1999) (pos 1) (pos 1) ≡ none)
    × (days_from_civil (negsuc 0) (pos 1) (pos 1) ≡ none)
unfolding days_from_civil civil_days
test_days = (refl, refl, refl, refl)

days_from_civil-day_number_example :
    days_from_civil (pos 2024) (pos 2) (pos 29) ≡ some (day_number 2024 2 29)
days_from_civil-day_number_example =
    days_from_civil-day_number 2024 2 29 (omega arith) (omega arith) (omega arith) (omega arith)
      (omega arith) (omega arith)
