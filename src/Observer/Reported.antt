-- ===== src/Observer/Reported.antt =====
-- The prompt and completion counts that `UsageState::finish` of proxy/src/observation.rs reports,
-- by what the `usage` values of the events state.
use flock.Base.{ℕ, Option, List}
use flock.Observer.Json.{Value}
use flock.Observer.Usage.{UsageObservations, no_usage, finish_usage}
use flock.Observer.Stated.{observe_usages}

-- what is reported of the `usage` values of the events, one after another
abbrev pub reported : List (Option Value) → Option ℕ → UsageObservations
reported os estimate = finish_usage (observe_usages no_usage os) estimate
