-- ===== src/Router/Lifecycle.antt =====
-- `build` and `rebuild` of proxy/src/router.rs, with the methods of a runtime that they call. A
-- rebuilt pool is a new one: the slots taken from the old pool keep it.
use flock.Base.{
  from_secs, ℕ, Bool, true, false, Option, none, some, List, [], ◌∷◌, ◌++◌, String, String-discrete,
  ite, if◌then◌else◌, length, get_elem?, keep, map,
}
use flock.Circuit.{astmatrix_defaults}
use flock.Health.{Host, lookup, put}
use flock.Pool.{Pool}
use flock.Providers.{ProviderDef, lane_specs}
use flock.Router.{ProviderRuntime, RouterInner, RoutingCfg}
use flock.Coalescer
use flock.Pool

-- what the router reads of the store
pub record StoredConfig : Type 0 where
  pub providers : List ProviderDef
  pub routing : RoutingCfg
  pub overrides : List (String × ℕ)
  pub governed : Bool

abbrev pub enabled_providers : StoredConfig → List ProviderDef
enabled_providers stored = keep (λ d. d.enabled) stored.providers

-- a runtime as `ProviderRuntime::build` makes it, its pool being at `i`
unfoldable pub fresh_runtime : ProviderDef → ℕ → ProviderRuntime
unfolding astmatrix_defaults
fresh_runtime d i = record {
  def = d;
  pool = i;
  governor = [];
  coalescer = Coalescer.new (from_secs 5);
  circuit = astmatrix_defaults;
  requests = 0;
  errors = 0;
  rate_limited = 0;
  circuit_rejected = 0;
}

-- some provider of the store has the name and is enabled
unfoldable pub keeps : List ProviderDef → String → Bool
keeps [] name = false
keeps (d ∷ ds) name =
    ite (String-discrete d.name name) (if d.enabled then true else keeps ds name) (keeps ds name)

-- the runtimes of the providers that the store has and enables
abbrev pub retained : {host : Host} → RouterInner host → StoredConfig → RouterInner host
retained r stored = record r { runtimes = keep (λ e. keeps stored.providers e.0) r.runtimes }

module _ {host : Host} (env : String → Option String) where
  -- `none` stands for a pool that does not exist
  unfoldable pub reconfigure_pool :
      RouterInner host → ProviderDef → ProviderRuntime → Option Pool → ℕ → RouterInner host
  unfolding lane_specs
  reconfigure_pool r d rt none now = r
  reconfigure_pool r d rt (some p) now = record r {
    pools = r.pools ++ Pool.rebuild p (lane_specs env d) now ∷ [];
    runtimes = put d.name (record rt { def = d; pool = length r.pools }) r.runtimes;
  }

  unfoldable pub apply_def :
      RouterInner host → ProviderDef → Option ProviderRuntime → ℕ → RouterInner host
  unfolding fresh_runtime reconfigure_pool lane_specs
  apply_def r d none now = record r {
    pools = r.pools ++ Pool.new (lane_specs env d) now ∷ [];
    runtimes = put d.name (fresh_runtime d (length r.pools)) r.runtimes;
  }
  apply_def r d (some rt) now = reconfigure_pool r d rt (get_elem? r.pools rt.pool) now

  unfoldable pub apply_defs : RouterInner host → List ProviderDef → ℕ → RouterInner host
  unfolding apply_def
  apply_defs r [] now = r
  apply_defs r (d ∷ ds) now = apply_defs (apply_def r d (lookup d.name r.runtimes) now) ds now

  unfoldable pub rebuild : RouterInner host → StoredConfig → ℕ → RouterInner host
  unfolding apply_defs keeps
  rebuild r stored now = record (apply_defs (retained r stored) (enabled_providers stored) now) {
    order = map (λ d. d.name) (enabled_providers stored);
    routing = stored.routing;
    governor_overrides = stored.overrides;
    governor_enabled = stored.governed;
  }
