-- ===== src/Router.antt =====
-- proxy/src/router.rs: the state of the router, and the test that makes a provider a candidate.
-- The environment that holds the keys' materials is an argument. `Arc`s of pools may be shared by a
-- runtime and by the slots of an earlier one, so a pool is named by its index in `pools`.
pub mod Order
pub mod Select
pub mod Offered
pub mod Rotation
pub mod Offers
pub mod Finish
pub mod Acquire
pub mod Strikes
pub mod Failover
pub mod Execute
pub mod Ending
pub mod Lifecycle
pub mod Swapped
pub mod Removed
pub mod Persist
pub mod Shut
pub mod Outcome
mod Tests
use flock.Base.{
  ℕ, ◌+◌, ◌*◌, ◌≡◌, Bool, true, false, not, ◌&&◌, Option, none, some, List, [], ◌∷◌, String,
  String-discrete, ite, ltb, leb, ◌==◌, if◌then◌else◌, find, insert, max, from_secs, ℤ,
}
use flock.Circuit.{CircuitBreaker, CircuitState, closed, half_open, opened}
use flock.Coalescer.{Coalescer}
use flock.Governor.{Governor}
use flock.Health.{Host, HealthInner, is_healthy, lookup}
use flock.Pool.{Pool}
use flock.Providers.{ProviderDef, usable}

pub data Strategy : Type 0 where
  hybrid ast_race sticky_affinity weighted_elo least_latency round_robin free circuit_chain :
      Strategy

pub record ProviderRuntime : Type 0 where
  pub def : ProviderDef
  pub pool : ℕ
  pub governor : Governor
  pub coalescer : Coalescer
  pub circuit : CircuitBreaker
  pub requests : ℕ
  pub errors : ℕ
  pub rate_limited : ℕ
  pub circuit_rejected : ℕ

pub record RoutingCfg : Type 0 where
  pub strategy : Strategy
  pub sticky_ttl_secs : ℕ
  pub max_retries : ℕ
  pub enable_coalescing : Bool

unfoldable pub sticky_ttl : RoutingCfg → ℕ
sticky_ttl cfg = from_secs (max cfg.sticky_ttl_secs 1)

pub record RouterInner (host : Host) : Type 0 where
  pub runtimes : List (String × ProviderRuntime)
  pub order : List String
  pub health : HealthInner host
  pub pools : List Pool
  pub routing : RoutingCfg
  pub governor_overrides : List (String × ℕ)
  pub governor_enabled : Bool
  pub empty_strikes : List ((String × String) × (ℕ × ℕ))
  pub rounds : ℕ  -- the counter of the round-robin strategy

pub record RouteCandidate : Type 0 where
  pub provider : String
  pub model : String
  pub strategy : Strategy

abbrev pub is_open : CircuitState → Bool
is_open closed = false
is_open half_open = false
is_open opened = true

module _ {host : Host} where
  unfoldable pub runtime : RouterInner host → String → Option ProviderRuntime
  runtime r provider = lookup provider r.runtimes

  unfoldable pub candidate_ok : (String → Option String) → RouterInner host → ProviderRuntime → Bool
  candidate_ok env r rt =
      usable env rt.def && is_healthy r.health rt.def.name && not (is_open rt.circuit.state)
