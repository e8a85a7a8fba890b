-- ===== src/Health/Restart.antt =====
-- The health map that a restart of proxy/src/health.rs rebuilds from the database.
use flock.Base.{
  ℕ, ◌≤◌, ◌<◌, ◌^◌, ◌≡◌, refl, ap, ◌∙◌, true, not, Option, none, some, List, [], ◌∷◌, String,
  String-discrete, find, keep, ite, Option-cases, inl, inr, pos, as_i64, as_u64, as_u64-as_i64,
  arith, Unique, keep-Unique, find-keep, filtered, map_values, map_found, find-map_values,
  map_values-Unique, find-insert, All,
}
use flock.Health.{
  Host, HealthInner, empty, is_healthy, get_elo, get_sticky, latency_ms, unexpired, live, lookup,
  put, or_else, apply_row, apply_rows, apply_pins, apply_restored,
}
use flock.Health.Store.{
  ProviderColumns, StickyColumns, StateDb, provider_row, default_columns, sticky_columns, outlives,
  no_rows, writer_loop,
}
use flock.Health.Restore.{is_zero, read_row, read_rows, read_pins, restore}
use flock.Health.Changes.{Change, Fits, run}
use flock.Health.Mirror.{Mirrors, SmallPin, lookup-put_or}
use flock.Health.Replay.{swept_columns, run-Mirrors, empty-Mirrors, run-last_sample, last_sample}

-- a restart at `t`: the health map rebuilt from the database
abbrev pub restart : {host : Host} → StateDb host → ℕ → HealthInner host
restart db t = apply_restored empty (restore db t).rows (restore db t).stickies

abbrev newer : {A : Type 0} → Option A → Option A → Option A
newer none old = old
newer (some a) old = some a

abbrev found_or : {A B : Type 0} → (A → B) → Option A → B → B
found_or f none d = d
found_or f (some a) d = f a

abbrev pin_of : StickyColumns → Option (String × ℕ)
pin_of row = some (row.provider, as_u64 row.expires_unix)

found_pin :
    (t now : ℕ) (pins : List (String × (String × ℕ))) (s : String)
    → t ≤ now
    → All SmallPin pins
    → unexpired now (
        found_or pin_of
          (map_found String-discrete sticky_columns
            (filtered String-discrete (live t) (find String-discrete s pins)))
          none)
      ≡ unexpired now (find String-discrete s pins)
unfolding find
found_pin t now [] s le a = refl
found_pin t now ((q, (p, e)) ∷ pins) s le (b, a) =
    ground (arith, found_pin t now pins s le a, as_u64-as_i64 e)

empty_stickies : (host : Host) → (empty {host = host}).stickies ≡ []
unfolding empty
empty_stickies host = refl

module _ {host : Host} where
  rows-health :
      (t : List (String × ProviderColumns host)) (g : HealthInner host) (p : String)
      → Unique String-discrete t
      → is_healthy (apply_rows g (read_rows t)) p
        ≡ found_or (λ row. not (is_zero row.healthy)) (find String-discrete p t) (is_healthy g p)
  unfolding apply_rows apply_row read_rows is_healthy find
  rows-health [] g p u = refl
  rows-health ((q, row) ∷ t) g p (fresh, u) = ground (
    arith,
    rows-health t (apply_row g (read_row (q, row))) p u,
    lookup-put_or q p (not (is_zero row.healthy)) true g.healthy,
    ap (λ x. find String-discrete x t),
  )

  row-latency :
      (g : HealthInner host) (q p : String) (row : ProviderColumns host)
      → latency_ms (apply_row g (read_row (q, row))) p
        ≡ ite (String-discrete q p) (newer row.latency_ms (latency_ms g p)) (latency_ms g p)
  unfolding apply_row latency_ms
  row-latency g q p row = elim (Option-cases row.latency_ms) [
    | inl e ↦ ground arith
    | inr (ms, e) ↦ ground (arith, find-insert String-discrete q p ms g.latencies_ms)
  ]

  rows-latency :
      (t : List (String × ProviderColumns host)) (g : HealthInner host) (p : String)
      → Unique String-discrete t
      → latency_ms (apply_rows g (read_rows t)) p
        ≡ found_or
            (λ row. newer row.latency_ms (latency_ms g p))
            (find String-discrete p t)
            (latency_ms g p)
  unfolding apply_rows read_rows find
  rows-latency [] g p u = refl
  rows-latency ((q, row) ∷ t) g p (fresh, u) = ground (
    arith,
    rows-latency t (apply_row g (read_row (q, row))) p u,
    row-latency g q p row,
    ap (λ x. find String-discrete x t),
  )

  rows-elo :
      (t : List (String × ProviderColumns host)) (g : HealthInner host) (p : String)
      → Unique String-discrete t
      → get_elo (apply_rows g (read_rows t)) p
        ≡ found_or (λ row. row.elo) (find String-discrete p t) (get_elo g p)
  unfolding apply_rows apply_row read_rows get_elo find
  rows-elo [] g p u = refl
  rows-elo ((q, row) ∷ t) g p (fresh, u) = ground (
    arith,
    rows-elo t (apply_row g (read_row (q, row))) p u,
    lookup-put_or q p row.elo (pos 1500) g.elos,
    ap (λ x. find String-discrete x t),
  )

  rows-stickies :
      (t : List (String × ProviderColumns host)) (g : HealthInner host)
      → (apply_rows g (read_rows t)).stickies ≡ g.stickies
  unfolding apply_rows apply_row read_rows
  rows-stickies [] g = refl
  rows-stickies (e ∷ t) g = rows-stickies t (apply_row g (read_row e))

  pins_keep :
      (t : List (String × StickyColumns)) (g : HealthInner host)
      → ((apply_pins g (read_pins t)).healthy ≡ g.healthy)
        × ((apply_pins g (read_pins t)).elos ≡ g.elos)
        × ((apply_pins g (read_pins t)).latencies_ms ≡ g.latencies_ms)
  unfolding apply_pins read_pins
  pins_keep [] g = (refl, refl, refl)
  pins_keep ((s, row) ∷ t) g = pins_keep t _

  pins-lookup :
      (t : List (String × StickyColumns)) (g : HealthInner host) (s : String)
      → Unique String-discrete t
      → lookup s (apply_pins g (read_pins t)).stickies
        ≡ found_or pin_of (find String-discrete s t) (lookup s g.stickies)
  unfolding apply_pins read_pins find
  pins-lookup [] g s u = refl
  pins-lookup ((q, row) ∷ t) g s (fresh, u) = ground (
    arith,
    pins-lookup t (record g { stickies = put q (row.provider, as_u64 row.expires_unix) g.stickies })
        s u,
    find-insert String-discrete q s (row.provider, as_u64 row.expires_unix) g.stickies,
    ap (λ x. find String-discrete x t),
  )

  -- what the database says of a provider, as the health map reads it
  row_healthy :
      (g : HealthInner host) (db : StateDb host) (p : String)
      → Mirrors g db
      → found_or (λ row. not (is_zero row.healthy)) (find String-discrete p db.provider_state) true
        ≡ is_healthy g p
  unfolding provider_row is_healthy default_columns
  row_healthy g db p m = ground (arith, m.health_is p)

  row_latency :
      (db : StateDb host) (p : String)
      → found_or (λ row. newer row.latency_ms none) (find String-discrete p db.provider_state) none
        ≡ (provider_row db p).latency_ms
  unfolding provider_row default_columns
  row_latency db p = elim (Option-cases (find String-discrete p db.provider_state)) [
    | inl e ↦ rw e refl
    | inr (row, e) ↦ elim (Option-cases row.latency_ms) [
      | inl k ↦ rw (e, k) refl
      | inr (ms, k) ↦ rw (e, k) refl
    ]
  ]

  row_elo :
      (g : HealthInner host) (db : StateDb host) (p : String)
      → Mirrors g db
      → found_or (λ row. row.elo) (find String-discrete p db.provider_state) (pos 1500)
        ≡ get_elo g p
  unfolding provider_row get_elo default_columns
  row_elo g db p m = ground (arith, m.elo_is p)

  abbrev kept_pins : StateDb host → ℕ → List (String × StickyColumns)
  kept_pins db t = keep (λ e. outlives (as_i64 t) e.1) db.sticky_sessions

  restart-is_healthy :
      (g : HealthInner host) (db : StateDb host) (t : ℕ) (p : String)
      → Mirrors g db
      → is_healthy (restart db t) p ≡ is_healthy g p
  unfolding restore apply_restored is_healthy empty find
  restart-is_healthy g db t p m =
      ap (λ h. or_else (lookup p h) true)
        (pins_keep (kept_pins db t) (apply_rows empty (read_rows db.provider_state))).0
      ∙ rows-health db.provider_state empty p m.rows_unique
      ∙ row_healthy g db p m

  restart-latency_ms :
      (db : StateDb host) (t : ℕ) (p : String)
      → Unique String-discrete db.provider_state
      → latency_ms (restart db t) p ≡ (provider_row db p).latency_ms
  unfolding restore apply_restored latency_ms empty find
  restart-latency_ms db t p u =
      ap (λ h. lookup p h)
        (pins_keep (kept_pins db t) (apply_rows empty (read_rows db.provider_state))).2
      ∙ rows-latency db.provider_state empty p u
      ∙ row_latency db p

  restart-get_elo :
      (g : HealthInner host) (db : StateDb host) (t : ℕ) (p : String)
      → Mirrors g db
      → get_elo (restart db t) p ≡ get_elo g p
  unfolding restore apply_restored get_elo empty find
  restart-get_elo g db t p m =
      ap (λ h. or_else (lookup p h) (pos 1500))
        (pins_keep (kept_pins db t) (apply_rows empty (read_rows db.provider_state))).1
      ∙ rows-elo db.provider_state empty p m.rows_unique
      ∙ row_elo g db p m

  module _ (g0 : HealthInner host) (none_yet : g0.stickies ≡ []) where
    pins_restored :
        (pins : List (String × (String × ℕ))) (t now : ℕ) (s : String)
        → t ≤ now
        → All SmallPin pins
        → Unique String-discrete pins
        → unexpired now (
            lookup s
              (apply_pins g0 (
                read_pins (
                  map_values String-discrete sticky_columns
                    (keep (λ e. live t e.1) pins)))).stickies)
          ≡ unexpired now (lookup s pins)
    unfolding find
    pins_restored pins t now s le a u =
        rw
          (
            pins-lookup (map_values String-discrete sticky_columns (keep (λ e. live t e.1) pins)) g0
                s
                (map_values-Unique String-discrete sticky_columns _
                  (keep-Unique String-discrete (live t) pins u)),
            find-map_values String-discrete sticky_columns s (keep (λ e. live t e.1) pins),
            find-keep String-discrete (live t) s pins u,
            none_yet,
          )
          (found_pin t now pins s le a)

  restart-get_sticky :
      (g : HealthInner host) (db : StateDb host) (t now : ℕ) (s : String)
      → t ≤ now
      → t < 2 ^ 63
      → Mirrors g db
      → get_sticky (restart db t) s now ≡ get_sticky g s now
  unfolding restore apply_restored get_sticky
  restart-get_sticky g db t now s le h m =
      let g0 = apply_rows empty (read_rows db.provider_state) in
      ap (λ pins. unexpired now (lookup s (apply_pins g0 (read_pins pins)).stickies))
        (ap (λ rows. keep (λ e. outlives (as_i64 t) e.1) rows) m.pins_are
          ∙ swept_columns t g.stickies h m.pins_small)
      ∙ pins_restored g0 (rows-stickies db.provider_state empty ∙ empty_stickies host) g.stickies t
          now s le m.pins_small m.pins_unique

module _ (host : Host) where
  -- the map in memory after the changes since the first boot
  abbrev pub remembered : List Change → HealthInner host
  remembered cs = (run (empty {host = host}) cs).0

  -- the map after the writer has read the ops of the changes and a restart at `t`
  abbrev pub restarted : List Change → ℕ → HealthInner host
  restarted cs t = restart (writer_loop no_rows (run (empty {host = host}) cs).1) t

  -- After any changes to a fresh map whose times are under 2 ^ 63, a restart from the database
  -- that the writer filled answers as the map in memory does: each provider is as healthy, each
  -- has the same ELO, and from the restart on each session has the same pin.
  pub restarted-remembered :
      (cs : List Change) (t now : ℕ) (p s : String)
      → All Fits cs
      → t ≤ now
      → t < 2 ^ 63
      → (is_healthy (restarted cs t) p ≡ is_healthy (remembered cs) p)
        × (get_elo (restarted cs t) p ≡ get_elo (remembered cs) p)
        × (get_sticky (restarted cs t) s now ≡ get_sticky (remembered cs) s now)
  restarted-remembered cs t now p s fs le h =
      let m = run-Mirrors empty cs no_rows fs (empty-Mirrors {host = host}) in
      (
        restart-is_healthy (remembered cs) _ t p m,
        restart-get_elo (remembered cs) _ t p m,
        restart-get_sticky (remembered cs) _ t now s le h m,
      )

  no_latency : (p : String) → (provider_row (no_rows {host = host}) p).latency_ms ≡ none
  unfolding provider_row no_rows default_columns find
  no_latency p = refl

  -- The latency that a restart restores for a provider is its last sample, whatever average the map
  -- had in memory.
  pub restarted-latency_ms :
      (cs : List Change) (t : ℕ) (p : String)
      → All Fits cs
      → latency_ms (restarted cs t) p ≡ last_sample host cs p none
  restarted-latency_ms cs t p fs =
      restart-latency_ms _ t p
        (run-Mirrors empty cs no_rows fs (empty-Mirrors {host = host})).rows_unique
      ∙ run-last_sample empty cs no_rows p fs (empty-Mirrors {host = host})
      ∙ ap (last_sample host cs p) (no_latency p)
