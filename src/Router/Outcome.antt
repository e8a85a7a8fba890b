-- ===== src/Router/Outcome.antt =====
-- What an outcome recorded in proxy/src/router.rs does to the next selection.
use flock.Base.{
  ℕ, ◌+◌, ◌-◌, ◌≤◌, ◌<◌, ◌^◌, ◌≡◌, ◌≢◌, refl, ap, ◌∙◌, Bool, true, false, Option, some, List, [],
  ◌∷◌, String, String-discrete, length, usize, max, get_elem?, All, arith, find-insert_self, u64,
  as_secs, from_secs,
}
use flock.Circuit.{CircuitBreaker, opened, record_success}
use flock.Health.{
  Host, PersistOp, is_healthy, record_health, record_latency, set_sticky, get_sticky, put,
  unexpired,
}
use flock.Pool.{Pool}
use flock.Providers.{usable, map_model}
use flock.Router.{
  Strategy, sticky_affinity, ProviderRuntime, RouterInner, runtime, candidate_ok, is_open,
  sticky_ttl,
}
use flock.Router.Order.{Weights}
use flock.Router.Select.{effective_strategy, select}
use flock.Router.Finish.{
  Acquired, cooldown_for, is_provider_failure, failed, finish_failure, finish_success, succeeded,
  when_found,
}
use flock.Router.Shut.{Named, Not, EndsInTime, failed-Shut, unhealthy-Not}

expiry :
    (now_unix secs : ℕ)
    → now_unix + secs < 2 ^ 64
    → u64 (now_unix + as_secs (from_secs secs)) ≡ now_unix + secs
expiry now_unix secs h = omega arith

not_yet :
    (provider : String) (t expires : ℕ)
    → t < expires
    → unexpired t (some (provider, expires)) ≡ some provider
not_yet provider t expires h = ground arith

module _ {host : Host} (w : Weights host) (env : String → Option String) where
  -- A failed attempt on a provider of a router whose runtimes stand under their providers' names and
  -- whose rotation counter is clear of the end of its range, with no status, status 429 or a status from 500,
  -- is recorded without a panic if its slot's lane exists and the cooldown that it starts, if any,
  -- ends at an instant that the platform represents, and no selection from the router that it leaves
  -- offers that provider, for any model, session, strategy and time.
  pub finish_failure-select :
      (r : RouterInner host) (acq : Acquired) (rt : ProviderRuntime) (status : ℕ) (exhausted : Bool)
      (retry_after : Option ℕ) (now_unix now : ℕ) (pool : Pool) (model session : String)
      (override : Option Strategy) (t : ℕ)
      → runtime r acq.provider ≡ some rt
      → rt.def.name ≡ acq.provider
      → All Named r.runtimes
      → is_provider_failure status ≡ true
      → get_elem? r.pools acq.slot.pool ≡ some pool
      → acq.slot.lane < length pool.lanes
      → EndsInTime now (cooldown_for status exhausted retry_after)
      → usize r.rounds + length r.order ≤ 2 ^ 64
      → (res : RouterInner host × List (PersistOp host)) × (finish_failure r acq status exhausted
            retry_after now_unix now
          ≡ some res)
        × All (Not acq.provider) (select w env res.0 model session override t).1
  unfolding finish_failure
  finish_failure-select r acq rt status exhausted retry_after now_unix now pool model session
        override t found e names f k h ends fits =
      let (res, eq, s) =
        failed-Shut r acq rt status exhausted retry_after now_unix now pool f e names k h ends in
      (
        res,
        ap
              (λ o.
                when_found o (some (r, []))
                  (λ x. failed r acq x status exhausted retry_after now_unix now))
              found
            ∙ eq,
        unhealthy-Not w env res.0 acq.provider s.sick s.names model session override t
            (rw (s.same_rounds, s.same_order) fits),
      )

  pin_wins :
      (r : RouterInner host) (rt : ProviderRuntime) (model session provider : String)
      (override : Option Strategy) (t : ℕ)
      → effective_strategy r.routing.strategy override model ≡ sticky_affinity
      → get_sticky r.health session t ≡ some provider
      → runtime r provider ≡ some rt
      → candidate_ok env r rt ≡ true
      → (select w env r model session override t).1
        ≡ record { provider = provider; model = map_model rt.def model; strategy = sticky_affinity }
          ∷ []
  unfolding select
  pin_wins r rt model session provider override t s g f ok = rw (s, g, f, ok) refl

  success_not_open :
      (cb : CircuitBreaker) → cb.state ≢ opened → is_open (record_success cb).state ≡ false
  unfolding record_success
  success_not_open cb h = ground arith

  abbrev served : ProviderRuntime → ProviderRuntime
  served rt = record rt { circuit = record_success rt.circuit }

  -- the router after a success that pins the session
  abbrev pinned_router :
      RouterInner host → Acquired → ProviderRuntime → String → ℕ → ℕ → RouterInner host
  pinned_router r acq rt session now_unix now = record r {
    runtimes = put acq.provider (served rt) r.runtimes;
    health =
        (set_sticky
          (record_health (record_latency r.health acq.provider (now - acq.attempt_started)).0
            acq.provider true now_unix).0
          session acq.provider (sticky_ttl r.routing) now_unix).0;
  }

  succeeded-pinned_router :
      (r : RouterInner host) (acq : Acquired) (rt : ProviderRuntime) (session : String)
      (now_unix now : ℕ)
      → acq.strategy ≡ sticky_affinity
      → acq.session ≡ some session
      → (succeeded r acq rt now_unix now).0 ≡ pinned_router r acq rt session now_unix now
  unfolding succeeded
  succeeded-pinned_router r acq rt session now_unix now e s = rw (e, s) refl

  module _ (r : RouterInner host) (acq : Acquired) (rt : ProviderRuntime) (session : String)
      (now_unix now t : ℕ) where
    after : RouterInner host
    after = pinned_router r acq rt session now_unix now

    after-get_sticky :
        t < now_unix + max r.routing.sticky_ttl_secs 1
        → now_unix + max r.routing.sticky_ttl_secs 1 < 2 ^ 64
        → get_sticky after.health session t ≡ some acq.provider
    unfolding after set_sticky get_sticky sticky_ttl record_health record_latency
    after-get_sticky live fits =
        ap (unexpired t) (find-insert_self String-discrete session _ r.health.stickies)
        ∙ ap (λ e. unexpired t (some (acq.provider, e)))
            (expiry now_unix (max r.routing.sticky_ttl_secs 1) fits)
        ∙ not_yet acq.provider t (now_unix + max r.routing.sticky_ttl_secs 1) live

    after-runtime : runtime after acq.provider ≡ some (served rt)
    unfolding after runtime
    after-runtime = find-insert_self String-discrete acq.provider (served rt) r.runtimes

    after-candidate_ok :
        rt.def.name ≡ acq.provider
        → usable env rt.def ≡ true
        → rt.circuit.state ≢ opened
        → candidate_ok env after (served rt) ≡ true
    unfolding after candidate_ok is_healthy record_health record_latency set_sticky
    after-candidate_ok e ok shut =
        rw
          (
            ok,
            e,
            find-insert_self String-discrete acq.provider true r.health.healthy,
            success_not_open rt.circuit shut,
          )
          refl

  -- A success under the sticky strategy pins the session: until the pin's time to live (at least a
  -- second) has passed, a selection under that strategy offers the session this provider alone, if
  -- it was usable with a circuit not open.
  pub finish_success-select :
      (r : RouterInner host) (acq : Acquired) (rt : ProviderRuntime) (now_unix now : ℕ)
      (model session : String) (override : Option Strategy) (t : ℕ)
      → runtime r acq.provider ≡ some rt
      → rt.def.name ≡ acq.provider
      → usable env rt.def ≡ true
      → rt.circuit.state ≢ opened
      → acq.strategy ≡ sticky_affinity
      → acq.session ≡ some session
      → effective_strategy r.routing.strategy override model ≡ sticky_affinity
      → t < now_unix + max r.routing.sticky_ttl_secs 1
      → now_unix + max r.routing.sticky_ttl_secs 1 < 2 ^ 64
      → (select w env (finish_success r acq now_unix now).0 model session override t).1
        ≡ record {
          provider = acq.provider;
          model = map_model rt.def model;
          strategy = sticky_affinity;
        }
          ∷ []
  unfolding finish_success after
  finish_success-select r acq rt now_unix now model session override t found e ok shut sticky s eff
        live fits =
      ap
        (λ o.
          (select w env (when_found o (r, []) (λ x. succeeded r acq x now_unix now)).0 model session
            override t).1)
        found
      ∙ ap (λ r'. (select w env r' model session override t).1)
          (succeeded-pinned_router r acq rt session now_unix now sticky s)
      ∙ pin_wins (pinned_router r acq rt session now_unix now) (served rt) model session
          acq.provider override t eff (after-get_sticky r acq rt session now_unix now t live fits)
          (after-runtime r acq rt session now_unix now t)
          (after-candidate_ok r acq rt session now_unix now t e ok shut)
