-- ===== src/Dispatch.antt =====
-- proxy/src/dispatch.rs: the queue before the pool. One turn is one pass of the loop in `run`, from
-- the test for a client that is gone to the sleep; what the turn meets, the closing of the reply
-- and the readings of the clock, is in the event. A sleep is the gap between two turns.
mod Fifo
mod Returned
mod Tests
use flock.Base.{
  ℕ, ◌+◌, Bool, true, false, Option, none, some, List, [], ◌∷◌, ◌++◌, ltb, if◌then◌else◌, min,
  from_millis, String, ◌>>=◌,
}
use flock.Pool.{Pool, LaneSpec, Reservation, ready, wait, reserve, release, rebuild}

-- `ticket` tells the waiters apart, as their reply channels do
pub record Waiter : Type 0 where
  pub ticket : ℕ
  pub deadline : ℕ
  pub prefer : Option ℕ

pub record Slot : Type 0 where
  pub lane : ℕ
  pub key : String

-- how a turn ends: the waiter is served, or leaves without a slot, or stays for another turn
pub data Turn : Type 0 where
  granted : Slot → Turn
  left : Turn
  stays : ℕ → Turn

-- what a reservation comes to; `closed` is whether the reply is closed when it is sent
unfoldable pub answer : Pool → Waiter → Reservation → Bool → ℕ → Option (Pool × Turn)
answer p w (ready lane key stamp sticky) true later = do p' ← release p lane stamp; some (p', left)
answer p w (ready lane key stamp sticky) false later =
    some (p, granted (record { lane = lane; key = key }))
answer p w (wait d) closed later =
    some (p, if ltb w.deadline (later + d) then left else stays (min d (from_millis 500)))

-- one pass of the loop; `gone` is whether the reply is closed at its start
unfoldable pub turn : Pool → Waiter → Bool → Bool → ℕ → ℕ → Option (Pool × Turn)
unfolding answer
turn p w true closed now later = some (p, left)
turn p w false closed now later = do r ← reserve p w.prefer now; answer r.0 w r.1 closed later

-- the waiter at the head of `queue` is the one that `run` has received
pub record Dispatcher : Type 0 where
  pub queue : List Waiter
  pub pool : Pool
  pub slots : List (ℕ × Slot)

pub data Event : Type 0 where
  acquires : Waiter → Event
  swaps : List LaneSpec → ℕ → Event
  turns : Bool → Bool → ℕ → ℕ → Event

-- the queue and the slots after the turn of its head
unfoldable pub settle : Waiter → List Waiter → List (ℕ × Slot) → Pool → Turn → Dispatcher
settle w rest slots p (granted s) = record {
  queue = rest;
  pool = p;
  slots = slots ++ (w.ticket, s) ∷ [];
}
settle w rest slots p left = record { queue = rest; pool = p; slots = slots }
settle w rest slots p (stays d) = record { queue = w ∷ rest; pool = p; slots = slots }

unfoldable pub serve : List Waiter → Dispatcher → Bool → Bool → ℕ → ℕ → Option Dispatcher
unfolding turn settle
serve [] d gone closed now later = some d
serve (w ∷ rest) d gone closed now later = do
  t ← turn d.pool w gone closed now later
  some (settle w rest d.slots t.0 t.1)

unfoldable pub step : Dispatcher → Event → Option Dispatcher
unfolding serve
step d (acquires w) = some (record d { queue = d.queue ++ w ∷ [] })
step d (swaps specs now) = some (record d { pool = rebuild d.pool specs now })
step d (turns gone closed now later) = serve d.queue d gone closed now later

unfoldable pub steps : Dispatcher → List Event → Option Dispatcher
unfolding step
steps d [] = some d
steps d (e ∷ es) = do d' ← step d e; steps d' es
