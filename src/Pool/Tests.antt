-- ===== src/Pool/Tests.antt =====
-- Runs of the pool of proxy/src/pool.rs, and the theorems at concrete inputs.
use flock.Base.{
  ◌-◌, ◌≤◌, ◌≡◌, refl, true, false, none, some, List, [], ◌∷◌, arith, map, keep, take, length,
  String-discrete, from_secs,
}
use flock.Pool.Lanes.{Lane, evict, take_slot, ready_at, window_ready, has, remove_last}
use flock.Pool.{
  Pool, LaneSpec, Reservation, ready, wait, find_lane, new, rebuild, try_take, scan, sort_loads,
  first_ready, reserve_any, reserve, release, penalize,
}
use flock.Pool.Moves.{Reserved, reserve-Reserved}
use flock.Pool.Ledger.{in_span}
use flock.Pool.Swap.{find_spec, find_lane-rebuild, active_keys-rebuild}
use flock.Pool.Track.{Call, reserves, releases, penalizes, rebuilds, use_pool, use_all, Keeps}
use flock.Pool.Budget.{grants_within_budget}
use flock.Pool.Choice.{Chosen, reserve-Chosen}
use flock.Pool.Total.{reserve_each, reserve_each-rebuild_total}
use flock.Pool.Persist.{window_row, restore_lane_window}
use flock.Pool.Restore.{restored_stamps, restore_lane_window-window_row}

abbrev small : LaneSpec
small = record { key = "small"; rpm = 1; enabled = true }

abbrev big : LaneSpec
big = record { key = "big"; rpm = 2; enabled = true }

abbrev off : LaneSpec
off = record { key = "off"; rpm = 5; enabled = false }

abbrev specs : List LaneSpec
specs = off ∷ small ∷ big ∷ []

-- the pool of `specs` after a grant on each of its two active lanes
abbrev warm : Pool
warm = record {
  lanes =
      record { key = "small"; rpm = 1; sent = 5 ∷ []; cooldown_until = 0 }
      ∷ record { key = "big"; rpm = 2; sent = 6 ∷ []; cooldown_until = 0 }
      ∷ record { key = "off"; rpm = 5; sent = []; cooldown_until = 0 }
      ∷ [];
  active = 2;
}

abbrev full : Pool
full = record {
  lanes =
      record { key = "small"; rpm = 1; sent = 5 ∷ []; cooldown_until = 0 }
      ∷ record { key = "big"; rpm = 2; sent = 6 ∷ 7 ∷ []; cooldown_until = 0 }
      ∷ record { key = "off"; rpm = 5; sent = []; cooldown_until = 0 }
      ∷ [];
  active = 2;
}

spills_over : reserve warm (some 0) 7 ≡ some (full, ready 1 "big" 7 false)
unfolding reserve reserve_any try_take scan sort_loads first_ready evict take_slot ready_at
    window_ready
spills_over = refl

waits : reserve full none 8 ≡ some (full, wait (from_secs 61 - 3))
unfolding reserve reserve_any try_take scan sort_loads first_ready evict take_slot ready_at
    window_ready
waits = refl

first_two :
    reserve_each (new specs 0) ((none, 5) ∷ (some 1, 6) ∷ [])
    ≡ some (warm, ready 0 "small" 5 false ∷ ready 1 "big" 6 true ∷ [])
unfolding reserve_each new find_lane String-discrete reserve reserve_any try_take scan sort_loads
    first_ready evict take_slot ready_at window_ready
first_two = refl

reserve-Reserved_example : Reserved 7 warm.lanes 2 full (ready 1 "big" 7 false)
reserve-Reserved_example = reserve-Reserved 7 (some 0) warm full (ready 1 "big" 7 false) spills_over

reserve-Chosen_example : Chosen 7 warm (some 0) (ready 1 "big" 7 false)
reserve-Chosen_example = reserve-Chosen warm full (some 0) 7 (ready 1 "big" 7 false) spills_over

reserve_each-rebuild_total_example :
    (a : Pool × List Reservation) × (reserve_each
        (rebuild warm specs 9)
        ((none, 9) ∷ (some 7, 10) ∷ [])
      ≡ some a)
    × (length a.1 ≡ 2)
reserve_each-rebuild_total_example =
    reserve_each-rebuild_total warm specs 9 ((none, 9) ∷ (some 7, 10) ∷ [])

-- "small" disabled, and "off" enabled
abbrev swapped : List LaneSpec
swapped =
    record { key = "small"; rpm = 3; enabled = false }
    ∷ record { key = "off"; rpm = 5; enabled = true }
    ∷ []

active_keys-rebuild_example :
    map (λ l. l.key) (take (rebuild warm swapped 9).active (rebuild warm swapped 9).lanes)
    ≡ map (λ s. s.key) (keep (λ s. s.enabled) swapped)
active_keys-rebuild_example = active_keys-rebuild warm swapped 9

find_lane-rebuild_example :
    find_lane "small" (rebuild warm swapped 9).lanes
    ≡ some (record { key = "small"; rpm = 3; sent = 5 ∷ []; cooldown_until = 0 })
unfolding find_spec find_lane String-discrete
find_lane-rebuild_example =
    find_lane-rebuild warm swapped 9 "small" (record { key = "small"; rpm = 3; enabled = false })
      (record { key = "small"; rpm = 1; sent = 5 ∷ []; cooldown_until = 0 }) (refl, (refl, tt)) refl
      refl

-- grants on both lanes, a return, a penalty, a settings change, and grants after it
abbrev life : List Call
life =
    reserves none 5
    ∷ reserves (some 1) 6
    ∷ releases 0 5
    ∷ reserves (some 0) 7
    ∷ penalizes 1 100 8
    ∷ rebuilds swapped 9
    ∷ reserves none 10
    ∷ []

lived :
    use_all "small" (record { pool = new specs 0; log = [] }) life
    ≡ some (record {
      pool = record {
        lanes =
            record { key = "off"; rpm = 5; sent = 10 ∷ []; cooldown_until = 0 }
            ∷ record { key = "small"; rpm = 3; sent = 7 ∷ []; cooldown_until = 0 }
            ∷ [];
        active = 1;
      };
      log = 7 ∷ [];
    })
unfolding use_all use_pool new rebuild release penalize remove_last has find_lane String-discrete
    reserve reserve_any try_take scan sort_loads first_ready evict take_slot ready_at window_ready
lived = refl

Keeps-small : Keeps "small" 3 specs
unfolding find_spec String-discrete
Keeps-small = ((refl, (refl, (refl, tt))), (small, refl, omega arith))

Keeps-swapped : Keeps "small" 3 swapped
unfolding find_spec String-discrete
Keeps-swapped =
    ((refl, (refl, tt)), (record { key = "small"; rpm = 3; enabled = false }, refl, omega arith))

grants_within_budget_example : in_span 5 (7 ∷ []) ≤ 3
grants_within_budget_example =
    grants_within_budget "small" 3 0 specs life
      (record {
        pool = record {
          lanes =
              record { key = "off"; rpm = 5; sent = 10 ∷ []; cooldown_until = 0 }
              ∷ record { key = "small"; rpm = 3; sent = 7 ∷ []; cooldown_until = 0 }
              ∷ [];
          active = 1;
        };
        log = 7 ∷ [];
      })
      5 Keeps-small
      (
        omega arith,
        (
          omega arith,
          (omega arith, (omega arith, (omega arith, Keeps-swapped, (omega arith, tt)))),
        ),
      )
      lived

-- two stamps in the window, and one that has left it
abbrev before_restart : Lane
before_restart = record {
  key = "small";
  rpm = 3;
  sent = from_secs 1 ∷ from_secs 40 ∷ 50000000007 ∷ [];
  cooldown_until = 0;
}

restore_lane_window-window_row_example :
    (q : Pool) × (restore_lane_window
        (new specs (from_secs 70))
        "small"
        (window_row (from_secs 70) 1000000 before_restart).1
        (from_secs 70)
        1000
      ≡ some q)
    × (find_lane "small" q.lanes
        ≡ some (record {
          key = "small";
          rpm = 1;
          sent = restored_stamps (from_secs 70) before_restart;
          cooldown_until = from_secs 70;
        }))
unfolding new find_lane String-discrete
restore_lane_window-window_row_example =
    restore_lane_window-window_row (new specs (from_secs 70)) "small"
      (record { key = "small"; rpm = 1; sent = []; cooldown_until = from_secs 70 }) before_restart
      (from_secs 70) 1000 refl refl
      ((omega arith, (omega arith, tt)), ((omega arith, tt), (tt, tt))) (omega arith) (omega arith)
