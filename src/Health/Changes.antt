-- ===== src/Health/Changes.antt =====
-- What the router and the admin API do to the health map of proxy/src/health.rs, in any order, with
-- the queue of writes that it makes.
use flock.Base.{ℕ, ◌+◌, ◌<◌, ◌^◌, Bool, List, [], ◌∷◌, ◌++◌, String, as_secs, ℤ}
use flock.Health.{
  Host, HealthInner, PersistOp, record_health, record_latency, set_elo, set_sticky,
  sweep_expired_stickies,
}

pub data Change : Type 0 where
  health_recorded : String → Bool → ℕ → Change
  latency_recorded : String → ℕ → Change
  elo_set : String → ℤ → Change
  sticky_set : String → String → ℕ → ℕ → Change
  stickies_swept : ℕ → Change

module _ {host : Host} where
  unfoldable pub step : HealthInner host → Change → HealthInner host × List (PersistOp host)
  unfolding record_health record_latency set_elo set_sticky sweep_expired_stickies
  step g (health_recorded provider healthy now_unix) = record_health g provider healthy now_unix
  step g (latency_recorded provider latency) = record_latency g provider latency
  step g (elo_set provider elo) = set_elo g provider elo
  step g (sticky_set session provider ttl now_unix) = set_sticky g session provider ttl now_unix
  step g (stickies_swept now_unix) =
      let (g', (ops, removed)) = sweep_expired_stickies g now_unix in (g', ops)

  unfoldable pub run : HealthInner host → List Change → HealthInner host × List (PersistOp host)
  unfolding step
  run g [] = (g, [])
  run g (c ∷ cs) = let (g', ops) = step g c in let (g'', more) = run g' cs in (g'', ops ++ more)

-- Every time that is written fits in the database's signed column.
abbrev pub Fits : Change → Type 0
Fits (health_recorded provider healthy now_unix) = now_unix < 2 ^ 63
Fits (latency_recorded provider latency) = Unit
Fits (elo_set provider elo) = Unit
Fits (sticky_set session provider ttl now_unix) = now_unix + as_secs ttl < 2 ^ 63
Fits (stickies_swept now_unix) = now_unix < 2 ^ 63
