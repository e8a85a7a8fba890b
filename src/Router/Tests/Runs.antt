-- ===== src/Router/Tests/Runs.antt =====
-- Runs of buffered requests and of a settings swap, and an instance of each theorem about them.
use flock.Base.{
  All, inl, inr, ℕ, ◌+◌, ◌≡◌, refl, ap, ite, Bool, true, false, Option, none, some, List, [], ◌∷◌,
  String, String-discrete, find, map, from_secs, arith,
}
use flock.Circuit.{new, allow, record_success, record_failure}
use flock.Health.{empty, is_healthy, get_elo, latency_ms}
use flock.Providers.{ProviderDef, usable, serves_model}
use flock.Router.{ProviderRuntime, RouterInner, runtime}
use flock.Router.Select.{select}
use flock.Router.Finish.{
  finish_success, finish_failure, succeeded, failed, mark_failure, apply_cooldown, cooldown_for,
  drain_model,
}
use flock.Router.Acquire.{
  unavailable, deadline, granted, AcquireCtx, acquire, enter, past_circuit, admit_model, take_grant,
  admit_polls, drop_permit,
}
use flock.Router.Execute.{Joining, execute_buffered}
use flock.Router.Strikes.{retryable_status}
use flock.Router.Failover.{
  Reply, Turn, relayed, failed_with, failover, turn, answered, judge, fail_over, succeed,
  drop_acquired, max_attempts,
}
use flock.Coalescer
use flock.Coalescer.{Entry, SharedResponse}
use flock.Router.Lifecycle.{
  StoredConfig, rebuild, keeps, apply_defs, apply_def, reconfigure_pool, fresh_runtime,
}
use flock.Router.Removed.{rebuild-select}
use flock.Router.Shut.{Not}
use flock.Router.Swapped.{Other, Swapped, rebuild-Swapped}
use flock.Router.Ending.{Ends, execute_buffered-Ends}
use flock.Governor.{admit_at}
use flock.Health.{record_health, record_latency, average}
use flock.Router.{sticky_ttl}
use flock.Base.{insert}
use flock.Pool.{penalize}
use flock.Pool.Persist.{lane_key}
use flock.Router.Tests.{test_host, weights, env, nim, local, runtime_of, lane, router}

abbrev alone : Joining
alone = record { key = "k"; registered_at = from_secs 1; awaited = none }

abbrev ctx : AcquireCtx
ctx = record {
  deadline = from_secs 60;
  heartbeat = from_secs 5;
  gated_path = false;
  session = none;
}

abbrev reply : ℕ → Reply
reply status = record {
  status = status;
  exhausted = false;
  retry_after = none;
  arrives = true;
  has_substance = true;
  content_type = none;
  body = [];
}

abbrev turn_at : ℕ → ℕ → Turn
turn_at t status = record {
  started_at = from_secs t;
  allowed_at = from_secs t;
  bucket = true;
  waited_from = from_secs t;
  polls = [];
  grant = granted (record { pool = 0; lane = 0 });
  sent_at = from_secs t;
  reply = some (reply status);
  done_at = from_secs (t + 1);
  done_unix = 100 + t;
}

-- a failure on the first candidate, then a reply of the second, or the last error
test_failover :
    ((execute_buffered weights env router ctx "m" true 100 alone
        (turn_at 1 503 ∷ turn_at 3 200 ∷ [])).1.1
      ≡ relayed (reply 200))
    × ((execute_buffered weights env router ctx "m" true 100 alone
          (turn_at 1 503 ∷ turn_at 3 429 ∷ turn_at 5 200 ∷ [])).1.1
        ≡ failed_with unavailable)
    × ((execute_buffered weights env router ctx "m" true 100 alone (turn_at 61 200 ∷ [])).1.1
        ≡ failed_with deadline)
    × ((execute_buffered weights env router ctx "m" true 100 alone (turn_at 1 404 ∷ [])).1.1
        ≡ relayed (reply 404))
unfolding execute_buffered failover turn answered judge fail_over succeed drop_acquired
    retryable_status max_attempts acquire enter past_circuit admit_model take_grant admit_polls
    admit_at finish_failure finish_success failed succeeded mark_failure apply_cooldown cooldown_for
    penalize lane_key drain_model runtime allow record_success record_failure record_health
    record_latency average sticky_ttl empty drop_permit new find insert String-discrete usable
    is_healthy serves_model latency_ms get_elo
test_failover = (refl, refl, refl, refl)

abbrev coalescing : RouterInner test_host
coalescing = record router { routing = record router.routing { enable_coalescing = true } }

abbrev coalescer_of :
    Option ProviderRuntime → Option (List (String × Entry) × List (ℕ × SharedResponse))
coalescer_of none = none
coalescer_of (some rt) = some (rt.coalescer.entries, rt.coalescer.sent)

-- a lead publishes its reply on its channel, and its entry goes
test_published :
    coalescer_of (
      find String-discrete "nim"
        (execute_buffered weights env coalescing ctx "m" true 100 alone
          (turn_at 1 200 ∷ [])).0.runtimes)
    ≡ some ([], (0, record { status = 200; content_type = "application/json"; body = [] }) ∷ [])
unfolding find execute_buffered String-discrete usable is_healthy empty new serves_model latency_ms
    get_elo Coalescer.complete
test_published = refl

execute_buffered-Ends_example :
    Ends true
      (execute_buffered weights env router ctx "m" true 100 alone
        (turn_at 1 503 ∷ turn_at 3 429 ∷ turn_at 5 200 ∷ [])).1.1
unfolding max_attempts select String-discrete usable is_healthy empty new serves_model latency_ms
    get_elo
execute_buffered-Ends_example =
    execute_buffered-Ends weights env router ctx "m" true 100 alone
      (turn_at 1 503 ∷ turn_at 3 429 ∷ turn_at 5 200 ∷ []) (omega arith)

-- the provider "nim" served models of another name, "local" is disabled
abbrev renamed : ProviderDef
renamed = record nim { model_map = [] }

abbrev stored : StoredConfig
stored = record {
  providers = record local { enabled = false } ∷ renamed ∷ record nim { name = "acme" } ∷ [];
  routing = router.routing;
  overrides = [];
  governed = false;
}

abbrev pool_at : String × ProviderRuntime → String × ℕ
pool_at e = (e.0, e.1.pool)

test_rebuild :
    (map pool_at (rebuild env router stored (from_secs 9)).runtimes ≡ ("nim", 1) ∷ ("acme", 2) ∷ [])
    × ((rebuild env router stored (from_secs 9)).order ≡ "nim" ∷ "acme" ∷ [])
unfolding rebuild keeps apply_defs apply_def reconfigure_pool fresh_runtime String-discrete find
    insert
test_rebuild = (refl, refl)

abbrev is_nim : String → Bool
is_nim name = ite (String-discrete name "nim") true false

acme_ne_nim : Other "nim" (record nim { name = "acme" })
unfolding String-discrete
acme_ne_nim e = ground (arith, ap is_nim e)

rebuild-Swapped_example :
    Swapped env
      (from_secs 9)
      (rebuild env router stored (from_secs 9))
      renamed
      (some (runtime_of nim))
      (some (record { lanes = lane ∷ []; active = 1 }))
unfolding find String-discrete
rebuild-Swapped_example =
    rebuild-Swapped env (from_secs 9) router stored [] (record nim { name = "acme" } ∷ []) renamed
      refl tt (acme_ne_nim, tt) (omega arith)

local_ne_nim : Other "nim" local
unfolding String-discrete
local_ne_nim e = ground (arith, ap is_nim e)

-- a swap that disables "nim" and keeps "local"
abbrev without_nim : StoredConfig
without_nim = record stored { providers = record nim { enabled = false } ∷ local ∷ [] }

rebuild-select_example :
    All
      (Not "nim")
      (select weights env (rebuild env router without_nim (from_secs 9)) "m" "ann" none 101).1
unfolding find String-discrete
rebuild-select_example =
    rebuild-select weights env (from_secs 9) router without_nim "nim" "m" "ann" none 101
      (refl, (refl, tt)) (inl refl, (inr local_ne_nim, tt)) (omega arith)
