-- ===== src/Health.antt =====
-- proxy/src/health.rs: the health map of the providers. Each operation gives the new map and what
-- it sends to the writer of the state database (Health/Store.antt). `f64` and JSON texts are
-- parameters, gathered in `Host`; `now_unix` is an argument, as in the source.
pub mod Store
pub mod Restore
pub mod Changes
pub mod Mirror
pub mod Replay
pub mod Restart
pub mod Runtime
pub mod Dates
mod Tests
use flock.Base.{
  ℕ, ◌+◌, ◌-◌, ◌/◌, ◌≡◌, Bool, true, false, Option, none, some, List, [], ◌∷◌, ◌++◌, String,
  String-discrete, ite, ltb, leb, ◌==◌, if◌then◌else◌, find, insert, keep, length, map, u64,
  as_secs, ℤ, pos,
}
use flock.Circuit.{CircuitSnapshot}
use flock.Governor.Persist.{GovernorSnapshot}
use Prim.Native.Char.{code}
use Prim.Native.String

-- `f64` with what the map computes on it, and the JSON text of a list of stamps
pub record Host : Type 1 where
  pub Float : Type 0
  pub as_secs_f64 : ℕ → Float
  pub times : Float → Float → Float
  pub plus : Float → Float → Float
  pub thousand : Float
  pub seven_tenths : Float
  pub three_tenths : Float
  pub Json : Type 0
  pub to_json : List ℕ → Option Json
  pub from_json : Json → Option (List ℕ)

pub record LaneWindowRow : Type 0 where
  pub key : String
  pub sent_ms : List ℕ

module _ (host : Host) where
  pub record HealthInner : Type 0 where
    pub healthy : List (String × Bool)
    pub last_probe_unix : List (String × ℕ)
    pub latencies_ms : List (String × host.Float)
    pub elos : List (String × ℤ)
    pub stickies : List (String × (String × ℕ))

  pub record ProviderStateRow : Type 0 where
    pub provider : String
    pub healthy : Bool
    pub latency_ms : Option host.Float
    pub elo : ℤ
    pub last_probe_unix : ℕ

  pub data PersistOp : Type 0 where
    provider_health_touched : String → Bool → ℕ → PersistOp
    provider_latency : String → host.Float → PersistOp
    provider_elo : String → ℤ → PersistOp
    sticky : String → String → ℕ → PersistOp
    sticky_sweep : ℕ → PersistOp
    circuit : String → CircuitSnapshot → PersistOp
    governor : String → String → GovernorSnapshot → PersistOp
    lane_windows : String → List LaneWindowRow → PersistOp
    cooldown : String → String → ℕ → PersistOp
    flush_providers : List ProviderStateRow → PersistOp
    imported : PersistOp
    shutdown : PersistOp

pub record RestoredSticky : Type 0 where
  pub session : String
  pub provider : String
  pub expires_unix : ℕ

abbrev pub lookup : {V : Type 0} → String → List (String × V) → Option V
lookup k m = find String-discrete k m

abbrev pub put : {V : Type 0} → String → V → List (String × V) → List (String × V)
put k v m = insert String-discrete k v m

-- `unwrap_or`
abbrev pub or_else {ℓ} : {A : Type ℓ} → Option A → A → A
or_else none d = d
or_else (some a) d = a

-- `or_insert(ms)`, then the average written over it
unfoldable pub average : (host : Host) → host.Float → Option host.Float → host.Float
average host ms old =
    host.plus (host.times host.seven_tenths ms) (host.times host.three_tenths (or_else old ms))

abbrev pub unexpired : ℕ → Option (String × ℕ) → Option String
unexpired now_unix none = none
unexpired now_unix (some (provider, expires)) = if ltb now_unix expires then some provider else none

abbrev pub live : ℕ → String × ℕ → Bool
live now_unix pin = ltb now_unix pin.1

module _ {host : Host} where
  unfoldable pub empty : HealthInner host
  empty = record { healthy = []; last_probe_unix = []; latencies_ms = []; elos = []; stickies = [] }

  unfoldable pub record_health :
      HealthInner host → String → Bool → ℕ → HealthInner host × List (PersistOp host)
  record_health g provider healthy now_unix = (
    record g {
      healthy = put provider healthy g.healthy;
      last_probe_unix = put provider now_unix g.last_probe_unix;
    },
    provider_health_touched provider healthy now_unix ∷ [],
  )

  unfoldable pub record_latency :
      HealthInner host → String → ℕ → HealthInner host × List (PersistOp host)
  unfolding average
  record_latency g provider latency =
      let ms = host.times (host.as_secs_f64 latency) host.thousand in
      (
        record g {
          latencies_ms =
              put provider (average host ms (lookup provider g.latencies_ms)) g.latencies_ms;
        },
        provider_latency provider ms ∷ [],
      )

  unfoldable pub is_healthy : HealthInner host → String → Bool
  is_healthy g provider = or_else (lookup provider g.healthy) true

  unfoldable pub latency_ms : HealthInner host → String → Option host.Float
  latency_ms g provider = lookup provider g.latencies_ms

  unfoldable pub get_elo : HealthInner host → String → ℤ
  get_elo g provider = or_else (lookup provider g.elos) (pos 1500)

  unfoldable pub set_elo : HealthInner host → String → ℤ → HealthInner host × List (PersistOp host)
  set_elo g provider elo =
      (record g { elos = put provider elo g.elos }, provider_elo provider elo ∷ [])

  -- the sum wraps, as a release build does
  unfoldable pub set_sticky :
      HealthInner host → String → String → ℕ → ℕ → HealthInner host × List (PersistOp host)
  set_sticky g session provider ttl now_unix =
      let expires = u64 (now_unix + as_secs ttl) in
      (
        record g { stickies = put session (provider, expires) g.stickies },
        sticky session provider expires ∷ [],
      )

  unfoldable pub get_sticky : HealthInner host → String → ℕ → Option String
  get_sticky g session now_unix = unexpired now_unix (lookup session g.stickies)

  -- the map, what is sent to the writer, and the number of pins removed
  unfoldable pub sweep_expired_stickies :
      HealthInner host → ℕ → HealthInner host × (List (PersistOp host) × ℕ)
  sweep_expired_stickies g now_unix =
      let kept = keep (λ e. live now_unix e.1) g.stickies in
      let removed = length g.stickies - length kept in
      (
        record g { stickies = kept },
        (if ltb 0 removed then sticky_sweep now_unix ∷ [] else [], removed),
      )

  unfoldable pub apply_row : HealthInner host → ProviderStateRow host → HealthInner host
  apply_row g row = record g {
    healthy = put row.provider row.healthy g.healthy;
    last_probe_unix = put row.provider row.last_probe_unix g.last_probe_unix;
    latencies_ms = elim row.latency_ms [
      | none ↦ g.latencies_ms
      | some ms ↦ put row.provider ms g.latencies_ms
    ];
    elos = put row.provider row.elo g.elos;
  }

  unfoldable pub apply_rows : HealthInner host → List (ProviderStateRow host) → HealthInner host
  unfolding apply_row
  apply_rows g [] = g
  apply_rows g (row ∷ rows) = apply_rows (apply_row g row) rows

  unfoldable pub apply_pins : HealthInner host → List RestoredSticky → HealthInner host
  apply_pins g [] = g
  apply_pins g (s ∷ pins) =
      apply_pins (record g { stickies = put s.session (s.provider, s.expires_unix) g.stickies })
        pins

  unfoldable pub apply_restored :
      HealthInner host → List (ProviderStateRow host) → List RestoredSticky → HealthInner host
  unfolding apply_rows apply_pins
  apply_restored g rows pins = apply_pins (apply_rows g rows) pins
