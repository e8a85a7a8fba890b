-- ===== src/Dispatch/Tests.antt =====
-- Runs of the dispatcher of proxy/src/dispatch.rs, and its theorem at a concrete input.
use flock.Base.{
  ℕ, ◌≡◌, refl, true, false, none, some, List, [], ◌∷◌, ◌++◌, String-discrete, from_secs,
}
use flock.Pool.Lanes.{evict, take_slot, ready_at, window_ready, has, remove_last}
use flock.Pool.{
  Pool, LaneSpec, find_lane, new, rebuild, try_take, scan, sort_loads, first_ready, reserve_any,
  reserve, release,
}
use flock.Dispatch.{
  left, Waiter, Dispatcher, Event, acquires, swaps, turns, answer, turn, settle, serve, step, steps,
}
use flock.Dispatch.Returned.{Untaken, turn-Untaken}
use flock.Dispatch.Fifo.{Sublist, served, tickets, arrivals, served_in_order}

abbrev one_lane : ℕ → List LaneSpec
one_lane rpm = record { key = "key0"; rpm = rpm; enabled = true } ∷ []

abbrev waiter : ℕ → Waiter
waiter n = record { ticket = n; deadline = from_secs 120; prefer = none }

-- one is served, one hangs up as it is served, one waits for a swap, one is still in the queue
abbrev happened : List Event
happened =
    acquires (waiter 0)
    ∷ acquires (waiter 1)
    ∷ turns false false 5 5
    ∷ acquires (waiter 2)
    ∷ acquires (waiter 3)
    ∷ turns true false 6 6
    ∷ turns false false 7 7
    ∷ swaps (one_lane 3) 8
    ∷ turns false false 9 9
    ∷ []

abbrev settled : Dispatcher
settled = record {
  queue = waiter 3 ∷ [];
  pool = record {
    lanes = record { key = "key0"; rpm = 3; sent = 5 ∷ 9 ∷ []; cooldown_until = 0 } ∷ [];
    active = 1;
  };
  slots = (0, record { lane = 0; key = "key0" }) ∷ (2, record { lane = 0; key = "key0" }) ∷ [];
}

all_settled :
    steps (record { queue = []; pool = new (one_lane 1) 0; slots = [] }) happened ≡ some settled
unfolding steps step serve turn answer settle new rebuild release find_lane String-discrete reserve
    reserve_any try_take scan sort_loads first_ready evict take_slot ready_at window_ready has
    remove_last
all_settled = refl

served_in_order_example :
    Sublist (served settled.slots ++ tickets settled.queue) (arrivals happened)
served_in_order_example = served_in_order (new (one_lane 1) 0) happened settled all_settled

abbrev one_sent : Pool
one_sent = record {
  lanes = record { key = "key0"; rpm = 2; sent = 5 ∷ []; cooldown_until = 0 } ∷ [];
  active = 1;
}

hung_up : turn one_sent (waiter 0) false true 7 8 ≡ some (one_sent, left)
unfolding turn answer release reserve reserve_any try_take scan sort_loads first_ready evict
    take_slot ready_at window_ready has remove_last
hung_up = refl

turn-Untaken_example : Untaken 7 one_sent one_sent left
turn-Untaken_example = turn-Untaken one_sent one_sent (waiter 0) false 7 8 left hung_up
