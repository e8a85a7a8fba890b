-- ===== src/Router/Execute.antt =====
-- `execute_buffered` of proxy/src/router.rs: the selection, the coalescer of the first candidate,
-- and the failover loop.
use flock.Base.{ℕ, Bool, true, false, Option, none, some, List, [], ◌∷◌, String}
use flock.Coalescer.{SharedResponse, Lead, Coalesce, follow, lead, register}
use flock.Health.{Host, PersistOp}
use flock.Router.Order.{Weights}
use flock.Router.Select.{select}
use flock.Router.{ProviderRuntime, RouterInner, RouteCandidate, runtime}
use flock.Router.Finish.{with_runtime}
use flock.Router.Acquire.{unavailable, AcquireCtx}
use flock.Router.Failover.{
  Turn, Outcome, failed_with, coalesced, Request, max_attempts, first_loop, failover,
}

-- the request as the coalescer takes it: its `coalesce_key`, the clock, and what a follower gets
pub record Joining : Type 0 where
  pub key : String
  pub registered_at : ℕ
  pub awaited : Option SharedResponse

abbrev session_key : Option String → String
session_key none = ""
session_key (some s) = s

module _ {host : Host} where
  unfoldable pub lead_with :
      RouterInner host
      → Request
      → ℕ
      → List Turn
      → Option (String × Lead)
      → RouterInner host × (List (PersistOp host) × Outcome)
  unfolding failover
  lead_with r q limit turns held = failover turns q limit r (record first_loop { held = held })

  -- a follower whose lead died goes alone
  unfoldable pub joined :
      RouterInner host
      → Request
      → ℕ
      → List Turn
      → Coalesce
      → Option SharedResponse
      → RouterInner host × (List (PersistOp host) × Outcome)
  unfolding lead_with
  joined r q limit turns (follow tx) (some resp) = (r, ([], coalesced resp))
  joined r q limit turns (follow tx) none = lead_with r q limit turns none
  joined r q limit turns (lead l) awaited = lead_with r q limit turns (some (q.first.provider, l))

  -- the registration with the coalescer of the first candidate, if coalescing is enabled
  unfoldable pub enrol :
      Bool
      → RouterInner host
      → Request
      → ℕ
      → List Turn
      → Joining
      → Option ProviderRuntime
      → RouterInner host × (List (PersistOp host) × Outcome)
  unfolding lead_with joined register
  enrol false r q limit turns j o = lead_with r q limit turns none
  enrol true r q limit turns j none = lead_with r q limit turns none
  enrol true r q limit turns j (some rt) =
      let (co, answer) = register rt.coalescer j.key j.registered_at in
      joined (with_runtime r q.first.provider (record rt { coalescer = co })) q limit turns answer
        j.awaited

  unfoldable pub execute_selected :
      RouterInner host
      → List RouteCandidate
      → AcquireCtx
      → String
      → Bool
      → Joining
      → List Turn
      → RouterInner host × (List (PersistOp host) × Outcome)
  unfolding failover max_attempts enrol
  execute_selected r [] ctx model is_chat j turns = (r, ([], failed_with unavailable))
  execute_selected r (c ∷ cs) ctx model is_chat j turns =
      enrol r.routing.enable_coalescing r
        (record { ctx = ctx; model = model; is_chat = is_chat; first = c; others = cs })
        (max_attempts (c ∷ cs) r.routing.max_retries) turns j (runtime r c.provider)

module _ {host : Host} (weights : Weights host) (env : String → Option String) where
  -- the candidates that the call selects
  abbrev pub selection :
      RouterInner host → AcquireCtx → String → ℕ → RouterInner host × List RouteCandidate
  selection r ctx model now_unix =
      select weights env r model (session_key ctx.session) none now_unix

  unfoldable pub execute_buffered :
      RouterInner host
      → AcquireCtx
      → String
      → Bool
      → ℕ
      → Joining
      → List Turn
      → RouterInner host × (List (PersistOp host) × Outcome)
  unfolding select execute_selected
  execute_buffered r ctx model is_chat now_unix j turns =
      let (r', cs) = selection r ctx model now_unix in
      execute_selected r' cs ctx model is_chat j turns
