-- ===== src/Router/Finish.antt =====
-- How proxy/src/router.rs records the outcome of an attempt. `now` is the monotonic clock,
-- `now_unix` the wall clock. Metrics other than the two counters of a runtime are left out.
use flock.Base.{
  ℕ, ◌+◌, ◌-◌, ◌*◌, Bool, true, false, ◌||◌, Option, none, some, List, [], ◌∷◌, ◌++◌, String, leb,
  ◌==◌, if◌then◌else◌, get_elem?, set, u64, as_millis, from_secs, ◌>>=◌,
}
use flock.Circuit.{record_success, record_failure}
use flock.Governor.{note_exhausted_at}
use flock.Health.{
  Host, HealthInner, PersistOp, cooldown, record_health, record_latency, set_sticky, lookup, put,
  or_else,
}
use flock.Pool.{Pool, penalize}
use flock.Pool.Persist.{lane_key}
use flock.Router.{Strategy, sticky_affinity, ProviderRuntime, RouterInner, runtime, sticky_ttl}

-- the grant of a lane of one of the pools
pub record LaneSlot : Type 0 where
  pub pool : ℕ
  pub lane : ℕ

pub record Acquired : Type 0 where
  pub provider : String
  pub model : String
  pub strategy : Strategy
  pub slot : LaneSlot
  pub permit : Bool  -- whether a `ModelPermit` is held
  pub attempt_started : ℕ
  pub session : Option String

abbrev pub is_sticky : Strategy → Bool
is_sticky sticky_affinity = true
is_sticky _ = false

-- `status == 0 || status == 429 || status >= 500`
abbrev pub is_provider_failure : ℕ → Bool
is_provider_failure status = status == 0 || status == 429 || leb 500 status

-- the lane's cooldown after a failed attempt
unfoldable pub cooldown_for : ℕ → Bool → Option ℕ → Option ℕ
cooldown_for status worker_exhausted retry_after =
    if worker_exhausted
    then none
    else (if status == 0
        then some (from_secs 5)
        else (if status == 429 || leb 500 status
            then some (or_else retry_after (from_secs 10))
            else none))

-- `let Some(rt) = … else { return … }`
abbrev pub when_found : {A B : Type 0} → Option A → B → (A → B) → B
when_found none d f = d
when_found (some a) d f = f a

module _ {host : Host} where
  abbrev pub with_runtime : RouterInner host → String → ProviderRuntime → RouterInner host
  with_runtime r provider rt = record r { runtimes = put provider rt r.runtimes }

  abbrev pub with_health :
      RouterInner host
      → HealthInner host × List (PersistOp host)
      → RouterInner host × List (PersistOp host)
  with_health r (h, ops) = (record r { health = h }, ops)

  -- a pin is set only for a request with a session
  abbrev pub pin_session :
      RouterInner host → String → Option String → ℕ → RouterInner host × List (PersistOp host)
  pin_session r provider none now_unix = (r, [])
  pin_session r provider (some session) now_unix =
      with_health r (set_sticky r.health session provider (sticky_ttl r.routing) now_unix)

  abbrev pub pin_if :
      Bool
      → RouterInner host
      → String
      → Option String
      → ℕ
      → RouterInner host × List (PersistOp host)
  pin_if true r provider session now_unix = pin_session r provider session now_unix
  pin_if false r provider session now_unix = (r, [])

  unfoldable pub succeeded :
      RouterInner host
      → Acquired
      → ProviderRuntime
      → ℕ
      → ℕ
      → RouterInner host × List (PersistOp host)
  unfolding record_success record_latency record_health set_sticky sticky_ttl
  succeeded r acq rt now_unix now =
      let r1 = with_runtime r acq.provider (record rt { circuit = record_success rt.circuit }) in
      let (h2, ops2) = record_latency r1.health acq.provider (now - acq.attempt_started) in
      let (h3, ops3) = record_health h2 acq.provider true now_unix in
      let (r4, ops4) =
        pin_if (is_sticky acq.strategy) (record r1 { health = h3 }) acq.provider acq.session
          now_unix in
      (r4, ops2 ++ (ops3 ++ ops4))

  unfoldable pub finish_success :
      RouterInner host → Acquired → ℕ → ℕ → RouterInner host × List (PersistOp host)
  unfolding runtime succeeded
  finish_success r acq now_unix now =
      when_found (runtime r acq.provider) (r, []) (λ rt. succeeded r acq rt now_unix now)

  -- the circuit and the health of a provider whose attempt failed
  unfoldable pub mark_failure :
      Bool
      → RouterInner host
      → String
      → ProviderRuntime
      → ℕ
      → ℕ
      → RouterInner host × List (PersistOp host)
  unfolding record_failure record_health
  mark_failure false r provider rt now_unix now = (with_runtime r provider rt, [])
  mark_failure true r provider rt now_unix now =
      with_health
        (with_runtime r provider (record rt { circuit = record_failure rt.circuit now_unix now }))
        (record_health r.health provider false now_unix)

  abbrev cooled :
      RouterInner host
      → Acquired
      → ℕ
      → ℕ
      → Option Pool
      → Option (RouterInner host × List (PersistOp host))
  cooled r acq backoff now_unix none = none
  cooled r acq backoff now_unix (some pool') = some (
    record r { pools = set r.pools acq.slot.pool pool' },
    cooldown acq.provider (or_else (lane_key pool' acq.slot.lane) "")
          (u64 (now_unix * 1000 + u64 (as_millis backoff)))
        ∷ [],
  )

  abbrev cool_lane :
      RouterInner host
      → Acquired
      → ℕ
      → ℕ
      → ℕ
      → Option Pool
      → Option (RouterInner host × List (PersistOp host))
  cool_lane r acq backoff now_unix now none = none
  cool_lane r acq backoff now_unix now (some pool) =
      cooled r acq backoff now_unix (penalize pool acq.slot.lane backoff now)

  -- the lane of the slot's own pool; `none` is the panic of a lane out of range
  unfoldable pub apply_cooldown :
      RouterInner host
      → Acquired
      → Option ℕ
      → ℕ
      → ℕ
      → Option (RouterInner host × List (PersistOp host))
  unfolding penalize lane_key
  apply_cooldown r acq none now_unix now = some (r, [])
  apply_cooldown r acq (some backoff) now_unix now =
      cool_lane r acq backoff now_unix now (get_elem? r.pools acq.slot.pool)

  abbrev pub exhausted_runtime :
      RouterInner host → String → String → ℕ → Option ProviderRuntime → RouterInner host
  exhausted_runtime r provider model now none = r
  exhausted_runtime r provider model now (some rt) = with_runtime r provider (record rt {
    governor = note_exhausted_at rt.governor model (lookup model r.governor_overrides) now;
  })

  -- the governor of a model whose workers are exhausted
  unfoldable pub drain_model : Bool → RouterInner host → String → String → ℕ → RouterInner host
  unfolding note_exhausted_at runtime
  drain_model false r provider model now = r
  drain_model true r provider model now =
      exhausted_runtime r provider model now (runtime r provider)

  unfoldable pub failed :
      RouterInner host
      → Acquired
      → ProviderRuntime
      → ℕ
      → Bool
      → Option ℕ
      → ℕ
      → ℕ
      → Option (RouterInner host × List (PersistOp host))
  unfolding mark_failure apply_cooldown drain_model cooldown_for
  failed r acq rt status worker_exhausted retry_after now_unix now =
      let (r1, ops1) =
        mark_failure (is_provider_failure status) r acq.provider
          (record rt { errors = u64 (rt.errors + 1) }) now_unix now in
      apply_cooldown r1 acq (cooldown_for status worker_exhausted retry_after) now_unix now
      >>= λ cooled.
          some (drain_model worker_exhausted cooled.0 acq.provider acq.model now, ops1 ++ cooled.1)

  unfoldable pub finish_failure :
      RouterInner host
      → Acquired
      → ℕ
      → Bool
      → Option ℕ
      → ℕ
      → ℕ
      → Option (RouterInner host × List (PersistOp host))
  unfolding runtime failed
  finish_failure r acq status worker_exhausted retry_after now_unix now =
      when_found (runtime r acq.provider) (some (r, []))
        (λ rt. failed r acq rt status worker_exhausted retry_after now_unix now)

  -- what the serving path's own retry loop reports of one attempt
  unfoldable pub attempted :
      RouterInner host
      → String
      → ProviderRuntime
      → Bool
      → ℕ
      → ℕ
      → RouterInner host × List (PersistOp host)
  unfolding record_failure record_success record_health
  attempted r provider rt true now_unix now =
      with_health
        (with_runtime r provider (record rt {
          circuit = record_failure rt.circuit now_unix now;
          errors = u64 (rt.errors + 1);
        }))
        (record_health r.health provider false now_unix)
  attempted r provider rt false now_unix now =
      with_health (with_runtime r provider (record rt { circuit = record_success rt.circuit }))
        (record_health r.health provider true now_unix)

  abbrev count_request : RouterInner host → String → Option ProviderRuntime → RouterInner host
  count_request r provider none = r
  count_request r provider (some rt) =
      with_runtime r provider (record rt { requests = u64 (rt.requests + 1) })

  unfoldable pub recorded :
      RouterInner host
      → String
      → String
      → ProviderRuntime
      → ℕ
      → ℕ
      → Bool
      → ℕ
      → ℕ
      → RouterInner host × List (PersistOp host)
  unfolding attempted record_latency drain_model runtime
  recorded r provider model rt status latency worker_exhausted now_unix now =
      let (r1, ops1) = attempted r provider rt (is_provider_failure status) now_unix now in
      let (h2, ops2) = record_latency r1.health provider latency in
      let r3 = drain_model worker_exhausted (record r1 { health = h2 }) provider model now in
      (count_request r3 provider (runtime r3 provider), ops1 ++ ops2)

  unfoldable pub record_attempt :
      RouterInner host
      → String
      → String
      → ℕ
      → ℕ
      → Bool
      → ℕ
      → ℕ
      → RouterInner host × List (PersistOp host)
  unfolding runtime recorded
  record_attempt r provider model status latency worker_exhausted now_unix now =
      when_found (runtime r provider) (r, [])
        (λ rt. recorded r provider model rt status latency worker_exhausted now_unix now)
