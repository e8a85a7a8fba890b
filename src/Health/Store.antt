-- ===== src/Health/Store.antt =====
-- proxy/src/health.rs: the state database and its writer thread. A table is an association list by
-- its primary key; an INTEGER column is an `i64`. A statement that fails to run is not modelled,
-- but for the JSON text of a lane window, whose failure leaves the transaction's tables alone.
use flock.Base.{
  ℕ, Bool, true, false, Option, none, some, List, [], ◌∷◌, String, String-discrete, leb_ℤ, not,
  insert, keep, ℤ, pos, as_i64, ◌>>=◌,
}
use flock.Circuit.{CircuitSnapshot}
use flock.Governor.Persist.{GovernorSnapshot}
use flock.Health.{
  Host, PersistOp, ProviderStateRow, LaneWindowRow, provider_health_touched, provider_latency,
  provider_elo, sticky, sticky_sweep, circuit, governor, lane_windows, cooldown, flush_providers,
  imported, shutdown, lookup, put, or_else,
}

pub record StickyColumns : Type 0 where
  pub provider : String
  pub expires_unix : ℤ

pub record CircuitColumns : Type 0 where
  pub state : ℤ
  pub failures : ℤ
  pub last_failure_unix : ℤ
  pub consecutive_successes : ℤ

pub record GovernorColumns : Type 0 where
  pub worker_limit : ℤ
  pub last_exhausted_unix : ℤ
  pub last_adjusted_unix : ℤ
  pub blocked_until_unix : ℤ

module _ (host : Host) where
  pub record ProviderColumns : Type 0 where
    pub healthy : ℤ
    pub latency_ms : Option host.Float
    pub elo : ℤ
    pub last_probe_unix : ℤ

  pub record StateDb : Type 0 where
    pub provider_state : List (String × ProviderColumns)
    pub sticky_sessions : List (String × StickyColumns)
    pub circuits : List (String × CircuitColumns)
    pub governors : List ((String × String) × GovernorColumns)
    pub windows : List ((String × String) × host.Json)
    pub cooldowns : List ((String × String) × ℤ)

-- a two-column key
unfoldable pub Pair-discrete : Discrete (String × String)
Pair-discrete = hlevel (String-discrete)

-- `healthy as i32`
abbrev pub bool_code : Bool → ℤ
bool_code true = pos 1
bool_code false = pos 0

-- the columns' DEFAULT clauses
unfoldable pub default_columns : (host : Host) → ProviderColumns host
default_columns host = record {
  healthy = pos 1;
  latency_ms = none;
  elo = pos 1500;
  last_probe_unix = pos 0;
}

abbrev pub circuit_columns : CircuitSnapshot → CircuitColumns
circuit_columns snap = record {
  state = pos snap.state;
  failures = pos snap.failures;
  last_failure_unix = as_i64 snap.last_failure_unix;
  consecutive_successes = pos snap.consecutive_successes;
}

abbrev pub governor_columns : GovernorSnapshot → GovernorColumns
governor_columns snap = record {
  worker_limit = as_i64 snap.worker_limit;
  last_exhausted_unix = as_i64 snap.last_exhausted_unix;
  last_adjusted_unix = as_i64 snap.last_adjusted_unix;
  blocked_until_unix = as_i64 snap.blocked_until_unix;
}

abbrev pub sticky_columns : String × ℕ → StickyColumns
sticky_columns pin = record { provider = pin.0; expires_unix = as_i64 pin.1 }

-- `DELETE FROM sticky_sessions WHERE expires_unix <= ?1` keeps these
abbrev pub outlives : ℤ → StickyColumns → Bool
outlives now row = not (leb_ℤ row.expires_unix now)

module _ {host : Host} where
  unfoldable pub no_rows : StateDb host
  no_rows = record {
    provider_state = [];
    sticky_sessions = [];
    circuits = [];
    governors = [];
    windows = [];
    cooldowns = [];
  }

  unfoldable pub provider_row : StateDb host → String → ProviderColumns host
  unfolding default_columns
  provider_row db provider = or_else (lookup provider db.provider_state) (default_columns host)

  -- an INSERT of some columns: the others have their defaults in a new row, and stay in an old one
  abbrev pub write_row : StateDb host → String → ProviderColumns host → StateDb host
  write_row db provider row = record db { provider_state = put provider row db.provider_state }

  -- the columns that each statement sets
  abbrev pub touched : ProviderColumns host → Bool → ℕ → ProviderColumns host
  touched row healthy now_unix = record row {
    healthy = bool_code healthy;
    last_probe_unix = as_i64 now_unix;
  }

  abbrev pub timed : ProviderColumns host → host.Float → ProviderColumns host
  timed row ms = record row { latency_ms = some ms }

  abbrev pub ranked : ProviderColumns host → ℤ → ProviderColumns host
  ranked row elo = record row { elo = elo }

  abbrev pub row_columns : ProviderStateRow host → ProviderColumns host
  row_columns r = record {
    healthy = bool_code r.healthy;
    latency_ms = r.latency_ms;
    elo = r.elo;
    last_probe_unix = as_i64 r.last_probe_unix;
  }

  unfoldable pub write_rows : StateDb host → List (ProviderStateRow host) → StateDb host
  write_rows db [] = db
  write_rows db (r ∷ rows) = write_rows (write_row db r.provider (row_columns r)) rows

  abbrev pub write_window : StateDb host → String → String → host.Json → StateDb host
  write_window db provider key json = record db {
    windows = insert Pair-discrete (provider, key) json db.windows;
  }

  unfoldable pub write_windows : StateDb host → String → List LaneWindowRow → Option (StateDb host)
  write_windows db provider [] = some db
  write_windows db provider (row ∷ rows) = host.to_json row.sent_ms >>= λ json.
      write_windows (write_window db provider row.key json) provider rows

  -- `none` is the error
  unfoldable pub apply_op : StateDb host → PersistOp host → Option (StateDb host)
  unfolding provider_row write_rows write_windows
  apply_op db (provider_health_touched provider healthy now_unix) =
      some (write_row db provider (touched (provider_row db provider) healthy now_unix))
  apply_op db (provider_latency provider ms) =
      some (write_row db provider (timed (provider_row db provider) ms))
  apply_op db (provider_elo provider elo) =
      some (write_row db provider (ranked (provider_row db provider) elo))
  apply_op db (sticky session provider expires_unix) = some (record db {
    sticky_sessions = put session (sticky_columns (provider, expires_unix)) db.sticky_sessions;
  })
  apply_op db (sticky_sweep now_unix) = some (record db {
    sticky_sessions = keep (λ e. outlives (as_i64 now_unix) e.1) db.sticky_sessions;
  })
  apply_op db (circuit provider snap) =
      some (record db { circuits = put provider (circuit_columns snap) db.circuits })
  apply_op db (governor provider model snap) = some (record db {
    governors = insert Pair-discrete (provider, model) (governor_columns snap) db.governors;
  })
  apply_op db (lane_windows provider rows) = write_windows db provider rows
  apply_op db (cooldown provider key until_unix_ms) = some (record db {
    cooldowns = insert Pair-discrete (provider, key) (as_i64 until_unix_ms) db.cooldowns;
  })
  apply_op db (flush_providers rows) = some (write_rows db rows)
  apply_op db imported = some db
  apply_op db shutdown = some db

  -- what the loop does with an op: an error is printed, and the next op is read
  abbrev pub applied : StateDb host → PersistOp host → StateDb host
  applied db op = or_else (apply_op db op) db

  unfoldable pub writer_loop : StateDb host → List (PersistOp host) → StateDb host
  unfolding apply_op
  writer_loop db [] = db
  writer_loop db (shutdown ∷ ops) = db
  writer_loop db (op ∷ ops) = writer_loop (applied db op) ops
