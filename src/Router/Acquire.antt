-- ===== src/Router/Acquire.antt =====
-- `acquire` and `admit_model` of proxy/src/router.rs, the gates before an attempt. The answer of
-- the provider's token bucket, which is in floating point, and what the dispatcher's channel
-- brings are arguments, as is each reading of the clock and of the client's state.
use flock.Base.{
  ℕ, ◌+◌, Bool, true, false, not, ◌&&◌, Option, none, some, List, [], ◌∷◌, String, String-discrete,
  ite, ltb, leb, if◌then◌else◌, u64, from_millis,
}
use flock.Circuit.{allow}
use flock.Governor.{Governor, admit_at, release}
use flock.Health.{Host, lookup}
use flock.Router.{ProviderRuntime, RouterInner, RouteCandidate, runtime}
use flock.Router.Finish.{LaneSlot, Acquired, with_runtime}

-- the texts are left out
pub data RouteError : Type 0 where
  unavailable rate_limited deadline client_gone : RouteError

pub record AcquireCtx : Type 0 where
  pub deadline : ℕ
  pub heartbeat : ℕ
  pub gated_path : Bool
  pub session : Option String

-- one round of the wait for a permit: the clock at the admission, at the test of the deadline,
-- after the sleep and at the reset of the heartbeat, and whether the client is gone then
pub record Poll : Type 0 where
  pub admitted_at : ℕ
  pub checked_at : ℕ
  pub woken_at : ℕ
  pub reset_at : ℕ
  pub gone : Bool

pub data Admission : Type 0 where
  waiting admitted timed_out left : Admission

-- what comes first: the dispatcher's slot, the close of its channel, or the client's leaving
pub data Grant : Type 0 where
  granted : LaneSlot → Grant
  closed_channel gone : Grant

pub data Answer : Type 0 where
  pending : Answer
  acquired : Acquired → Answer
  refused : RouteError → Answer

abbrev pub poll_interval : ℕ
poll_interval = from_millis 250

unfoldable pub admit_polls :
    Governor → String → Option ℕ → AcquireCtx → ℕ → List Poll → Governor × Admission
unfolding admit_at
admit_polls gov model pinned ctx next_heartbeat [] = (gov, waiting)
admit_polls gov model pinned ctx next_heartbeat (p ∷ ps) =
    let (gov', ok) = admit_at gov model pinned p.admitted_at in
    let beats = leb next_heartbeat p.woken_at in
    let next = if beats then p.reset_at + ctx.heartbeat else next_heartbeat in
    let rest = admit_polls gov' model pinned ctx next ps in
    if ok
    then (gov', admitted)
    else (if ltb ctx.deadline (p.checked_at + poll_interval)
        then (gov', timed_out)
        else (if beats && p.gone then (gov', left) else rest))

-- the drop of a permit
unfoldable pub drop_permit : Bool → ProviderRuntime → String → ProviderRuntime
unfolding release
drop_permit false rt model = rt
drop_permit true rt model = record rt { governor = release rt.governor model }

abbrev pub is_none_model : String → Bool
is_none_model model = ite (String-discrete model "none") true false

module _ {host : Host} where
  unfoldable pub take_grant :
      RouterInner host
      → RouteCandidate
      → AcquireCtx
      → ProviderRuntime
      → Bool
      → Grant
      → ℕ
      → RouterInner host × Answer
  unfolding drop_permit
  take_grant r c ctx rt permit (granted slot) started = (
    with_runtime r c.provider rt,
    acquired (record {
      provider = c.provider;
      model = c.model;
      strategy = c.strategy;
      slot = slot;
      permit = permit;
      attempt_started = started;
      session = ctx.session;
    }),
  )
  take_grant r c ctx rt permit closed_channel started =
      (with_runtime r c.provider (drop_permit permit rt c.model), refused deadline)
  take_grant r c ctx rt permit gone started =
      (with_runtime r c.provider (drop_permit permit rt c.model), refused client_gone)

  unfoldable pub after_admission :
      RouterInner host
      → RouteCandidate
      → AcquireCtx
      → ProviderRuntime
      → Admission
      → Grant
      → ℕ
      → RouterInner host × Answer
  unfolding take_grant
  after_admission r c ctx rt waiting grant started = (with_runtime r c.provider rt, pending)
  after_admission r c ctx rt admitted grant started = take_grant r c ctx rt true grant started
  after_admission r c ctx rt timed_out grant started =
      (with_runtime r c.provider (record rt { errors = u64 (rt.errors + 1) }), refused deadline)
  after_admission r c ctx rt left grant started =
      (with_runtime r c.provider rt, refused client_gone)

  -- the permit of a gated path, then the slot
  unfoldable pub admit_model :
      RouterInner host
      → RouteCandidate
      → AcquireCtx
      → ProviderRuntime
      → ℕ
      → List Poll
      → Grant
      → ℕ
      → RouterInner host × Answer
  unfolding admit_polls after_admission take_grant
  admit_model r c ctx rt waited_from polls grant started =
      let (gov, admission) =
        admit_polls rt.governor c.model (lookup c.model r.governor_overrides) ctx
          (waited_from + ctx.heartbeat) polls in
      if r.governor_enabled && not (is_none_model c.model) && ctx.gated_path
      then after_admission r c ctx (record rt { governor = gov }) admission grant started
      else take_grant r c ctx rt false grant started

  unfoldable pub past_circuit :
      RouterInner host
      → RouteCandidate
      → AcquireCtx
      → ProviderRuntime
      → Bool
      → Bool
      → ℕ
      → List Poll
      → Grant
      → ℕ
      → RouterInner host × Answer
  unfolding admit_model
  past_circuit r c ctx rt false bucket waited_from polls grant started = (
    with_runtime r c.provider (record rt { circuit_rejected = u64 (rt.circuit_rejected + 1) }),
    refused unavailable,
  )
  past_circuit r c ctx rt true false waited_from polls grant started = (
    with_runtime r c.provider (record rt { rate_limited = u64 (rt.rate_limited + 1) }),
    refused rate_limited,
  )
  past_circuit r c ctx rt true true waited_from polls grant started =
      admit_model r c ctx rt waited_from polls grant started

  unfoldable pub enter :
      RouterInner host
      → RouteCandidate
      → AcquireCtx
      → Option ProviderRuntime
      → ℕ
      → Bool
      → ℕ
      → List Poll
      → Grant
      → ℕ
      → RouterInner host × Answer
  unfolding allow past_circuit
  enter r c ctx none now bucket waited_from polls grant started = (r, refused unavailable)
  enter r c ctx (some rt) now bucket waited_from polls grant started =
      let (cb, ok) = allow rt.circuit now in
      past_circuit r c ctx (record rt { requests = u64 (rt.requests + 1); circuit = cb }) ok bucket
        waited_from polls grant started

  unfoldable pub acquire :
      RouterInner host
      → RouteCandidate
      → AcquireCtx
      → ℕ
      → Bool
      → ℕ
      → List Poll
      → Grant
      → ℕ
      → RouterInner host × Answer
  unfolding runtime enter
  acquire r c ctx now bucket waited_from polls grant started =
      enter r c ctx (runtime r c.provider) now bucket waited_from polls grant started
