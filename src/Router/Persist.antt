-- ===== src/Router/Persist.antt =====
-- What proxy/src/router.rs keeps across a restart: `build` with the state that the database gave,
-- and the tick of persistence. `none` is a panic of a restoration.
use flock.Base.{
  ℕ, Option, none, some, List, [], ◌∷◌, ◌++◌, String, String-discrete, ite, ltb, if◌then◌else◌,
  length, get_elem?, map, ◌>>=◌,
}
use flock.Circuit.{CircuitBreaker, CircuitSnapshot, snapshot}
use flock.Circuit
use flock.Governor.{Governor}
use flock.Governor.Persist.{GovernorSnapshot, snapshots}
use flock.Governor.Persist as Permits
use flock.Health.{
  Host, PersistOp, circuit, governor, lane_windows, cooldown, sticky_sweep, LaneWindowRow, lookup,
  put, empty, apply_restored, sweep_expired_stickies,
}
use flock.Health.Restore.{RestoredRuntime, Restored}
use flock.Pool
use flock.Pool.Persist.{restore_lane_window, restore_cooldown, lane_window_rows, cooldown_rows}
use flock.Providers.{ProviderDef, lane_specs}
use flock.Router.{ProviderRuntime, RouterInner}
use flock.Router.Lifecycle.{StoredConfig, enabled_providers, fresh_runtime}

abbrev pub restore_circuit : CircuitBreaker → Option CircuitSnapshot → ℕ → ℕ → Option CircuitBreaker
restore_circuit cb none now_unix now = some cb
restore_circuit cb (some snap) now_unix now = Circuit.restore snap now_unix now

unfoldable pub restore_windows : Pool.Pool → List LaneWindowRow → ℕ → ℕ → Option Pool.Pool
unfolding restore_lane_window
restore_windows p [] now_unix now = some p
restore_windows p (row ∷ rows) now_unix now = do
  p' ← restore_lane_window p row.key row.sent_ms now now_unix
  restore_windows p' rows now_unix now

abbrev pub windows_of : Option (List LaneWindowRow) → List LaneWindowRow
windows_of none = []
windows_of (some rows) = rows

-- a cooldown of another provider is passed over
unfoldable pub restore_cooldowns :
    Pool.Pool → String → List ((String × String) × ℕ) → ℕ → ℕ → Option Pool.Pool
unfolding restore_cooldown
restore_cooldowns p name [] now_unix now = some p
restore_cooldowns p name (((provider, key), until_ms) ∷ rest) now_unix now = do
  p' ← ite (String-discrete provider name) (restore_cooldown p key until_ms now now_unix) (some p)
  restore_cooldowns p' name rest now_unix now

unfoldable pub restore_governors :
    Governor → String → List ((String × String) × GovernorSnapshot) → ℕ → ℕ → Option Governor
restore_governors gov name [] now_unix now = some gov
restore_governors gov name (((provider, model), snap) ∷ rest) now_unix now = do
  gov' ←
      ite (String-discrete provider name) (Permits.restore gov model snap now now_unix) (some gov)
  restore_governors gov' name rest now_unix now

unfoldable pub restore_runtime :
    ProviderRuntime → Pool.Pool → RestoredRuntime → ℕ → ℕ → Option (ProviderRuntime × Pool.Pool)
unfolding restore_windows restore_cooldowns restore_governors
restore_runtime rt p saved now_unix now = do
  cb ← restore_circuit rt.circuit (lookup rt.def.name saved.circuits) now_unix now
  p1 ← restore_windows p (windows_of (lookup rt.def.name saved.lane_windows)) now_unix now
  p2 ← restore_cooldowns p1 rt.def.name saved.cooldowns now_unix now
  gov ← restore_governors rt.governor rt.def.name saved.governors now_unix now
  some (record rt { circuit = cb; governor = gov }, p2)

module _ {host : Host} where
  abbrev circuit_op : String → CircuitBreaker → PersistOp host
  circuit_op provider cb = circuit provider (snapshot cb)

  abbrev windows_op : String → List (String × List ℕ) → PersistOp host
  windows_op provider rows =
      lane_windows provider (map (λ row. record { key = row.0; sent_ms = row.1 }) rows)

  -- the ops of one runtime
  abbrev pub runtime_ops : ProviderRuntime → Option Pool.Pool → ℕ → ℕ → List (PersistOp host)
  runtime_ops rt none now_unix now = []
  runtime_ops rt (some p) now_unix now =
      circuit_op rt.def.name rt.circuit
      ∷ windows_op rt.def.name (lane_window_rows p now now_unix)
      ∷ (map (λ row. cooldown rt.def.name row.0 row.1) (cooldown_rows p now now_unix)
          ++ map (λ row. governor rt.def.name row.0 row.1) (snapshots rt.governor now now_unix))

  unfoldable pub runtimes_ops :
      List Pool.Pool → List (String × ProviderRuntime) → ℕ → ℕ → List (PersistOp host)
  runtimes_ops pools [] now_unix now = []
  runtimes_ops pools ((name, rt) ∷ rest) now_unix now =
      runtime_ops rt (get_elem? pools rt.pool) now_unix now ++ runtimes_ops pools rest now_unix now

  unfoldable pub persist_once : RouterInner host → ℕ → ℕ → RouterInner host × List (PersistOp host)
  unfolding runtimes_ops sweep_expired_stickies
  persist_once r now_unix now =
      let (h, (swept_ops, swept)) = sweep_expired_stickies r.health now_unix in
      (
        record r { health = h },
        runtimes_ops r.pools r.runtimes now_unix now
            ++ (swept_ops ++ (if ltb 0 swept then sticky_sweep now_unix ∷ [] else [])),
      )

  module _ (env : String → Option String) where
    unfoldable pub build_runtimes :
        RouterInner host → List ProviderDef → RestoredRuntime → ℕ → ℕ → Option (RouterInner host)
    unfolding fresh_runtime restore_runtime lane_specs
    build_runtimes r [] saved now_unix now = some r
    build_runtimes r (d ∷ ds) saved now_unix now = do
      built ←
          restore_runtime (fresh_runtime d (length r.pools)) (Pool.new (lane_specs env d) now) saved
            now_unix now
      build_runtimes
          (record r {
            pools = r.pools ++ built.1 ∷ [];
            runtimes = put d.name built.0 r.runtimes;
            order = r.order ++ d.name ∷ [];
          })
          ds saved now_unix now

    unfoldable pub build : StoredConfig → Restored host → ℕ → ℕ → Option (RouterInner host)
    unfolding build_runtimes apply_restored empty
    build stored restored now_unix now =
        build_runtimes
          (record {
            runtimes = [];
            order = [];
            health = apply_restored empty restored.rows restored.stickies;
            pools = [];
            routing = stored.routing;
            governor_overrides = stored.overrides;
            governor_enabled = stored.governed;
            empty_strikes = [];
            rounds = 0;
          })
          (enabled_providers stored) restored.runtime now_unix now
