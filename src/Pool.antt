-- ===== src/Pool.antt =====
-- proxy/src/pool.rs: the key pool. `Instant::now()` is an argument; the locks of the lanes are
-- taken by the dispatcher's one task, so each method is one step. An index out of bounds panics,
-- which is `none`.
pub mod Lanes
pub mod Window
pub mod Moves
pub mod Ledger
pub mod Keys
pub mod Swap
pub mod Track
pub mod Kept
pub mod Budget
pub mod Scanned
pub mod Sorted
pub mod Loads
pub mod Attempt
pub mod Choice
pub mod Total
pub mod Persist
pub mod Restore
mod Tests
use flock.Base.{
  ℕ, zero, suc, ◌+◌, ◌-◌, ◌≤◌, ◌<◌, ◌≡◌, Bool, true, false, ◌&&◌, ◌||◌, not, Option, none, some,
  List, [], ◌∷◌, ◌++◌, map, String, leb, ltb, ◌==◌, if◌then◌else◌, length, get_elem?, set, keep,
  take, max, min, after, ◌>>=◌, ite, String-discrete,
}
use Lanes.{Lane, window, evict, refresh, take_slot, ready_at, remove_last}

pub record LaneSpec : Type 0 where
  pub key : String
  pub rpm : ℕ
  pub enabled : Bool

-- the first `active` lanes are the enabled ones
pub record Pool : Type 0 where
  pub lanes : List Lane
  pub active : ℕ

pub data Reservation : Type 0 where
  ready : ℕ → String → ℕ → Bool → Reservation
  wait : ℕ → Reservation

unfoldable pub find_lane : String → List Lane → Option Lane
find_lane key [] = none
find_lane key (l ∷ ls) = ite (String-discrete l.key key) (some l) (find_lane key ls)

-- the lane that `assemble` makes of a spec: it keeps the window and the cooldown of its key
abbrev pub lane_from : ℕ → LaneSpec → Option Lane → Lane
lane_from now s none = record { key = s.key; rpm = s.rpm; sent = []; cooldown_until = now }
lane_from now s (some prev) = record {
  key = s.key;
  rpm = s.rpm;
  sent = prev.sent;
  cooldown_until = prev.cooldown_until;
}

-- `s` before the first spec whose `!enabled` is no less than its own
unfoldable pub insert_spec : LaneSpec → List LaneSpec → List LaneSpec
insert_spec s [] = s ∷ []
insert_spec s (b ∷ bs) =
    let rest = insert_spec s bs in if s.enabled || not b.enabled then s ∷ b ∷ bs else b ∷ rest

-- `sort_by_key(|s| !s.enabled)`, which is stable
unfoldable pub enabled_first : List LaneSpec → List LaneSpec
unfolding insert_spec
enabled_first [] = []
enabled_first (s ∷ rest) = insert_spec s (enabled_first rest)

unfoldable pub assemble : List LaneSpec → List Lane → ℕ → Pool
unfolding enabled_first
assemble specs old now = record {
  lanes = map (λ s. lane_from now s (find_lane s.key old)) (enabled_first specs);
  active = length (keep (λ s. s.enabled) specs);
}

unfoldable pub new : List LaneSpec → ℕ → Pool
unfolding assemble
new specs now = assemble specs [] now

unfoldable pub rebuild : Pool → List LaneSpec → ℕ → Pool
unfolding assemble
rebuild p specs now = assemble specs p.lanes now

unfoldable pub try_take : Pool → ℕ → ℕ → Bool → Option (Pool × Option Reservation)
try_take p i now sticky = elim (get_elem? p.lanes i) [
  | none ↦ none
  | some lane ↦
      let (lane', taken) = take_slot now lane in
      some (
        record p { lanes = set p.lanes i lane' },
        (if taken then some (ready i lane.key now sticky) else none),
      )
]

-- what the loop over the active lanes leaves: the lanes, the ready ones with their loads, and the
-- shortest wait
pub record Scan : Type 0 where
  pub lanes : List Lane
  pub loads : List (ℕ × ℕ)
  pub best_wait : ℕ

-- a lane that is ready at `at`, before the rest
abbrev pub scan_lane : ℕ → ℕ → Lane → ℕ → Scan → Scan
scan_lane now i l at rest =
    let now_ready : Bool = leb at now in
    record {
      lanes = l ∷ rest.lanes;
      loads = if now_ready then (length l.sent, i) ∷ rest.loads else rest.loads;
      best_wait = if now_ready then rest.best_wait else min rest.best_wait (at - now);
    }

abbrev pub scan_step : ℕ → ℕ → Lane → Option ℕ → Option Scan → Option Scan
scan_step now i l (some at) (some rest) = some (scan_lane now i l at rest)
scan_step now i l _ _ = none

-- `n` lanes are to be visited, the first of them lane `i`
unfoldable pub scan : ℕ → ℕ → ℕ → List Lane → Option Scan
unfolding ready_at
scan now zero i ls = some (record { lanes = ls; loads = []; best_wait = window })
scan now (suc n) i [] = some (record { lanes = []; loads = []; best_wait = window })
scan now (suc n) i (l ∷ ls) =
    let seen = refresh now l in scan_step now i seen (ready_at now seen) (scan now n (suc i) ls)

-- the order of `(usize, usize)`
abbrev pub load_le : ℕ × ℕ → ℕ × ℕ → Bool
load_le a b = ltb a.0 b.0 || (a.0 == b.0 && leb a.1 b.1)

insert_load : ℕ × ℕ → List (ℕ × ℕ) → List (ℕ × ℕ)
insert_load a [] = a ∷ []
insert_load a (b ∷ bs) = let rest = insert_load a bs in if load_le a b then a ∷ b ∷ bs else b ∷ rest

-- `sort_unstable`; equal pairs are the same value
unfoldable pub sort_loads : List (ℕ × ℕ) → List (ℕ × ℕ)
unfolding insert_load
sort_loads [] = []
sort_loads (a ∷ rest) = insert_load a (sort_loads rest)

-- the loop over the sorted ready lanes
unfoldable pub first_ready : Pool → ℕ → List (ℕ × ℕ) → ℕ → Option (Pool × Reservation)
unfolding try_take
first_ready p now [] best_wait = some (p, wait best_wait)
first_ready p now ((load, i) ∷ rest) best_wait = elim (try_take p i now false) [
  | none ↦ none
  | some (p', some r) ↦ some (p', r)
  | some (p', none) ↦ first_ready p' now rest best_wait
]

abbrev pub take_first : Pool → ℕ → Option Scan → Option (Pool × Reservation)
unfolding sort_loads first_ready
take_first p now none = none
take_first p now (some s) =
    first_ready (record p { lanes = s.lanes }) now (sort_loads s.loads) s.best_wait

-- past the preferred lane: scan, sort, and take the first that lets itself be taken
unfoldable pub reserve_any : Pool → ℕ → Option (Pool × Reservation)
unfolding scan sort_loads first_ready
reserve_any p now =
    if ltb (length p.lanes) p.active then none else take_first p now (scan now p.active 0 p.lanes)

reserve_preferred : Pool → ℕ → ℕ → Option (Pool × Reservation)
unfolding reserve_any try_take
reserve_preferred p i now = elim (try_take p i now true) [
  | none ↦ none
  | some (p', some r) ↦ some (p', r)
  | some (p', none) ↦ reserve_any p' now
]

-- a `prefer` out of range is ignored
unfoldable pub reserve : Pool → Option ℕ → ℕ → Option (Pool × Reservation)
unfolding reserve_preferred
reserve p none now = reserve_any p now
reserve p (some i) now = if ltb i p.active then reserve_preferred p i now else reserve_any p now

unfoldable pub release : Pool → ℕ → ℕ → Option Pool
release p i stamp = elim (get_elem? p.lanes i) [
  | none ↦ none
  | some l ↦
      some (record p { lanes = set p.lanes i (record l { sent = remove_last stamp l.sent }) })
]

-- `backoff` from `now`, which panics past the latest instant; never sooner than a cooldown that runs
unfoldable pub penalize : Pool → ℕ → ℕ → ℕ → Option Pool
penalize p i backoff now = do
  until ← after now backoff
  l ← get_elem? p.lanes i
  some (record p {
    lanes = set p.lanes i (record l { cooldown_until = max l.cooldown_until until });
  })
