-- ===== src/Pool/Track.antt =====
-- The life of a pool of proxy/src/pool.rs, seen from one key: its calls, settings changes included,
-- and the log of the key's grants.
use flock.Base.{ℕ, ◌≤◌, ◌≡◌, Option, some, List, [], ◌∷◌, ◌++◌, if◌then◌else◌, String, ◌>>=◌}
use flock.Pool.Lanes.{remove_last}
use flock.Pool.Moves.{key_at}
use flock.Pool.Keys.{is_key}
use flock.Pool.Swap.{DistinctSpecs, find_spec}
use flock.Pool.{Pool, LaneSpec, Reservation, ready, wait, rebuild, reserve, release, penalize}

-- a call of the pool, with the instant at which it reads the clock
pub data Call : Type 0 where
  reserves : Option ℕ → ℕ → Call
  releases : ℕ → ℕ → Call
  penalizes : ℕ → ℕ → ℕ → Call
  rebuilds : List LaneSpec → ℕ → Call

-- the pool, and the stamps of one key's grants that were not returned, the oldest first
pub record Track : Type 0 where
  pub pool : Pool
  pub log : List ℕ

abbrev pub logged : String → Reservation → List ℕ → List ℕ
logged k (ready i key stamp sticky) log = if is_key (some key) k then log ++ stamp ∷ [] else log
logged k (wait d) log = log

-- what a call does, seen from key `k`; `none` is a panic
unfoldable pub use_pool : String → Track → Call → Option Track
use_pool k t (reserves prefer now) = do
  r ← reserve t.pool prefer now
  some (record { pool = r.0; log = logged k r.1 t.log })
use_pool k t (releases i stamp) = do
  p ← release t.pool i stamp
  some (record {
    pool = p;
    log = if is_key (key_at t.pool.lanes i) k then remove_last stamp t.log else t.log;
  })
use_pool k t (penalizes i backoff now) = do
  p ← penalize t.pool i backoff now
  some (record { pool = p; log = t.log })
use_pool k t (rebuilds specs now) = some (record t { pool = rebuild t.pool specs now })

unfoldable pub use_all : String → Track → List Call → Option Track
use_all k t [] = some t
use_all k t (c ∷ cs) = do t' ← use_pool k t c; use_all k t' cs

-- the settings name each key once, and key `k` among them with a budget of at most `r`
abbrev pub Keeps : String → ℕ → List LaneSpec → Type 0
Keeps k r specs =
    DistinctSpecs specs × ((s : LaneSpec) × (find_spec k specs ≡ some s) × (s.rpm ≤ r))

-- the clock does not run back, and every settings change keeps key `k`
abbrev pub Orderly : String → ℕ → ℕ → List Call → Type 0
Orderly k r now [] = Unit
Orderly k r now (reserves _ t ∷ cs) = (now ≤ t) × Orderly k r t cs
Orderly k r now (releases _ _ ∷ cs) = Orderly k r now cs
Orderly k r now (penalizes _ _ t ∷ cs) = (now ≤ t) × Orderly k r t cs
Orderly k r now (rebuilds specs t ∷ cs) = (now ≤ t) × Keeps k r specs × Orderly k r t cs
