-- ===== src/Health/Restore.antt =====
-- proxy/src/health.rs: `restore`, the boot read of the state database. The caller's rows come in
-- the order of the tables, which SQLite leaves open.
use flock.Base.{
  ℕ, ◌-◌, ◌*◌, ◌%◌, ◌^◌, Bool, not, List, [], ◌∷◌, String, leb, leb_ℤ, insert, keep, u32, sat_u64,
  ℤ, pos, negsuc, as_i64, as_u64, ◌++◌,
}
use flock.Circuit.{CircuitSnapshot}
use flock.Governor.Persist.{GovernorSnapshot}
use flock.Health.{Host, ProviderStateRow, LaneWindowRow, RestoredSticky, lookup, put, or_else}
use flock.Health.Store.{
  ProviderColumns, StickyColumns, CircuitColumns, GovernorColumns, StateDb, Pair-discrete, outlives,
}

abbrev pub is_zero : ℤ → Bool
is_zero (pos n) = leb n 0
is_zero (negsuc n) = leb 1 0

abbrev pub read_row : {host : Host} → String × ProviderColumns host → ProviderStateRow host
read_row (provider, row) = record {
  provider = provider;
  healthy = not (is_zero row.healthy);
  latency_ms = row.latency_ms;
  elo = row.elo;
  last_probe_unix = as_u64 row.last_probe_unix;
}

abbrev pub read_pin : String × StickyColumns → RestoredSticky
read_pin (session, row) = record {
  session = session;
  provider = row.provider;
  expires_unix = as_u64 row.expires_unix;
}

abbrev pub read_circuit : CircuitColumns → CircuitSnapshot
read_circuit row = record {
  state = as_u64 row.state % 2 ^ 8;
  failures = u32 (as_u64 row.failures);
  last_failure_unix = as_u64 row.last_failure_unix;
  consecutive_successes = u32 (as_u64 row.consecutive_successes);
}

abbrev pub read_governor : GovernorColumns → GovernorSnapshot
read_governor row = record {
  worker_limit = as_u64 row.worker_limit;
  last_exhausted_unix = as_u64 row.last_exhausted_unix;
  last_adjusted_unix = as_u64 row.last_adjusted_unix;
  blocked_until_unix = as_u64 row.blocked_until_unix;
}

pub record RestoredRuntime : Type 0 where
  pub circuits : List (String × CircuitSnapshot)
  pub governors : List ((String × String) × GovernorSnapshot)
  pub lane_windows : List (String × List LaneWindowRow)
  pub cooldowns : List ((String × String) × ℕ)

module _ {host : Host} where
  unfoldable pub read_rows : List (String × ProviderColumns host) → List (ProviderStateRow host)
  read_rows [] = []
  read_rows (e ∷ rows) = read_row e ∷ read_rows rows

unfoldable pub read_pins : List (String × StickyColumns) → List RestoredSticky
read_pins [] = []
read_pins (e ∷ rows) = read_pin e ∷ read_pins rows

unfoldable pub read_circuits :
    List (String × CircuitColumns)
    → List (String × CircuitSnapshot)
    → List (String × CircuitSnapshot)
read_circuits [] m = m
read_circuits ((provider, row) ∷ rows) m = read_circuits rows (put provider (read_circuit row) m)

unfoldable pub read_governors :
    List ((String × String) × GovernorColumns)
    → List ((String × String) × GovernorSnapshot)
    → List ((String × String) × GovernorSnapshot)
read_governors [] m = m
read_governors ((k, row) ∷ rows) m =
    read_governors rows (insert Pair-discrete k (read_governor row) m)

-- stamps older than two minutes are dropped
abbrev pub cutoff : ℕ → ℕ
cutoff now_unix = sat_u64 ((now_unix - 120) * 1000)

unfoldable pub read_window : (host : Host) → ℕ → String → host.Json → LaneWindowRow
read_window host now_unix key json = record {
  key = key;
  sent_ms = keep (λ ms. leb (cutoff now_unix) ms) (or_else (host.from_json json) []);
}

abbrev pub push_window :
    String → LaneWindowRow → List (String × List LaneWindowRow) → List (String × List LaneWindowRow)
push_window provider row m = put provider (or_else (lookup provider m) [] ++ (row ∷ [])) m

unfoldable pub read_windows :
    (host : Host)
    → ℕ
    → List ((String × String) × host.Json)
    → List (String × List LaneWindowRow)
    → List (String × List LaneWindowRow)
unfolding read_window
read_windows host now_unix [] m = m
read_windows host now_unix (((provider, key), json) ∷ rows) m =
    read_windows host now_unix rows (push_window provider (read_window host now_unix key json) m)

-- `WHERE until_unix_ms > ?1`
abbrev pub still_cooling : ℤ → ℤ → Bool
still_cooling now_ms until = not (leb_ℤ until now_ms)

unfoldable pub read_cooldowns :
    List ((String × String) × ℤ) → List ((String × String) × ℕ) → List ((String × String) × ℕ)
read_cooldowns [] m = m
read_cooldowns ((k, until) ∷ rows) m = read_cooldowns rows (insert Pair-discrete k (as_u64 until) m)

pub record Restored (host : Host) : Type 0 where
  pub rows : List (ProviderStateRow host)
  pub stickies : List RestoredSticky
  pub runtime : RestoredRuntime
  pub db : StateDb host

abbrev pub now_ms : ℕ → ℤ
now_ms now_unix = as_i64 (sat_u64 (now_unix * 1000))

unfoldable pub restore : {host : Host} → StateDb host → ℕ → Restored host
unfolding read_rows read_pins read_circuits read_governors read_windows read_cooldowns
restore {host} db now_unix =
    let pins = keep (λ e. outlives (as_i64 now_unix) e.1) db.sticky_sessions in
    let cooling = keep (λ e. still_cooling (now_ms now_unix) e.1) db.cooldowns in
    record {
      rows = read_rows db.provider_state;
      stickies = read_pins pins;
      runtime = record {
        circuits = read_circuits db.circuits [];
        governors = read_governors db.governors [];
        lane_windows = read_windows host now_unix db.windows [];
        cooldowns = read_cooldowns cooling [];
      };
      db = record db { sticky_sessions = pins; cooldowns = cooling };
    }
