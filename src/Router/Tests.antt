-- ===== src/Router/Tests.antt =====
-- Runs of selection and of recorded outcomes, and an instance of each theorem about them.
mod Runs
use flock.Base.{
  ℕ, ◌+◌, ◌-◌, ◌*◌, ◌/◌, ◌≡◌, ◌≢◌, refl, true, false, Option, none, some, List, [], ◌∷◌, String,
  String-discrete, ltb, ◌==◌, find, map, ℤ, pos, negsuc, from_secs, arith, All,
}
use flock.Circuit.{new, opened}
use flock.Health.{Host, PersistOp, empty, is_healthy, get_elo, latency_ms, get_sticky}
use flock.Pool.Lanes.{Lane}
use flock.Providers.{
  ProviderDef, no_auth_header, usable, any_live, serves_model, contains, map_model,
}
use flock.Router.{
  hybrid, sticky_affinity, round_robin, weighted_elo, free, ProviderRuntime, RouterInner,
  RouteCandidate, runtime, candidate_ok,
}
use flock.Coalescer
use flock.Router.Order.{
  Weights, order_hybrid, order_elo, order_round_robin, by_latency, sort_by, insert_sorted,
  elo_rounds, remove_at, pick, total_of, total_from, index_of_roll, rotate_from,
}
use flock.Router.Select.{
  select, select_in_order, ordered, in_scope, found_all, candidate_of, upstream_model,
  is_free_directive, effective_strategy,
}
use flock.Router.Offers.{Offers, select-Offers}
use flock.Router.Finish.{cooldown_for, Acquired, finish_success, finish_failure}
use flock.Router.Shut.{Not}
use flock.Router.Outcome.{finish_failure-select, finish_success-select}

abbrev pub test_host : Host
test_host = record {
  Float = ℕ;
  as_secs_f64 = λ d. d / 1000000000;
  times = λ a b. a * b;
  plus = λ a b. a + b;
  thousand = 1000;
  seven_tenths = 7;
  three_tenths = 3;
  Json = List ℕ;
  to_json = λ xs. some xs;
  from_json = λ xs. some xs;
}

abbrev nat_of : ℤ → ℕ
nat_of (pos n) = n
nat_of (negsuc n) = 0

abbrev pub weights : Weights test_host
weights = record {
  less = ltb;
  zero_weight = 0;
  minus = λ a b. a - b;
  at_most_zero = λ a. a == 0;
  of_elo = nat_of;
  weight = λ d. 1;
  roll = λ n total. total / 2 + 1;
}

abbrev pub env : String → Option String
env name = none

abbrev pub nim : ProviderDef
nim = record {
  name = "nim";
  auth = no_auth_header;
  keys = [];
  no_auth = true;
  free_tier = false;
  models = "*" ∷ [];
  model_map = ("m", "up/m") ∷ [];
  default_rpm = 0;
  enabled = true;
}

abbrev pub local : ProviderDef
local = record nim { name = "local"; free_tier = true; models = "m" ∷ []; model_map = [] }

abbrev pub runtime_of : ProviderDef → ProviderRuntime
runtime_of d = record {
  def = d;
  pool = 0;
  governor = [];
  coalescer = Coalescer.new (from_secs 5);
  circuit = new 5 (from_secs 30) 3;
  requests = 0;
  rate_limited = 0;
  circuit_rejected = 0;
  errors = 0;
}

abbrev pub lane : Lane
lane = record { key = "k"; rpm = 60; sent = []; cooldown_until = 0 }

abbrev pub router : RouterInner test_host
router = record {
  runtimes = ("nim", runtime_of nim) ∷ ("local", runtime_of local) ∷ [];
  order = "nim" ∷ "local" ∷ [];
  health = empty;
  pools = record { lanes = lane ∷ []; active = 1 } ∷ [];
  routing = record {
    strategy = hybrid;
    sticky_ttl_secs = 60;
    max_retries = 2;
    enable_coalescing = false;
  };
  governor_overrides = [];
  governor_enabled = true;
  empty_strikes = [];
  rounds = 1;
}

abbrev names : List RouteCandidate → List String
names = map (λ c. c.provider)

test_strategies :
    (names (select weights env router "m" "ann" none 100).1 ≡ "nim" ∷ "local" ∷ [])
    × (names (select weights env router "m" "ann" (some round_robin) 100).1 ≡ "local" ∷ "nim" ∷ [])
    × (names (select weights env router "m" "ann" (some weighted_elo) 100).1 ≡ "local" ∷ "nim" ∷ [])
    × (names (select weights env router "x" "ann" none 100).1 ≡ "nim" ∷ [])
    × ((select weights env router "free" "ann" none 100).1
        ≡ record { provider = "local"; model = "m"; strategy = free } ∷ [])
unfolding select select_in_order ordered in_scope found_all candidate_of upstream_model
    is_free_directive effective_strategy order_hybrid order_elo order_round_robin by_latency sort_by
    insert_sorted elo_rounds remove_at pick total_of total_from index_of_roll rotate_from
    candidate_ok runtime usable any_live serves_model contains map_model is_healthy get_elo
    latency_ms get_sticky empty new find String-discrete
test_strategies = (refl, refl, refl, refl, refl)

select-Offers_example :
    Offers weights env router hybrid "m" "ann" 100 (select weights env router "m" "ann" none 100).1
unfolding effective_strategy is_free_directive String-discrete
select-Offers_example = select-Offers weights env router "m" "ann" 100 (omega arith) none

abbrev acq : Acquired
acq = record {
  provider = "nim";
  model = "up/m";
  strategy = sticky_affinity;
  slot = record { pool = 0; lane = 0 };
  permit = false;
  attempt_started = 0;
  session = some "ann";
}

finish_failure-select_example :
    (res : RouterInner test_host × List (PersistOp test_host)) × (finish_failure router acq 503
        false
        (some (from_secs 2))
        100
        (from_secs 7)
      ≡ some res)
    × All (Not "nim") (select weights env res.0 "m" "ann" none 101).1
unfolding runtime find String-discrete cooldown_for
finish_failure-select_example =
    finish_failure-select weights env router acq (runtime_of nim) 503 false (some (from_secs 2)) 100
      (from_secs 7) (record { lanes = lane ∷ []; active = 1 }) "m" "ann" none 101 refl refl
      (refl, (refl, tt)) refl refl (omega arith) (omega arith) (omega arith)

not_open : (runtime_of nim).circuit.state ≢ opened
unfolding new
not_open e = cc

finish_success-select_example :
    (select weights env
      (finish_success router acq 100 (from_secs 7)).0
      "m"
      "ann"
      (some sticky_affinity)
      159).1
    ≡ record { provider = "nim"; model = map_model nim "m"; strategy = sticky_affinity } ∷ []
unfolding runtime find String-discrete usable effective_strategy is_free_directive
finish_success-select_example =
    finish_success-select weights env router acq (runtime_of nim) 100 (from_secs 7) "m" "ann"
      (some sticky_affinity) 159 refl refl refl not_open refl refl refl (omega arith) (omega arith)
