-- ===== src/Health/Replay.antt =====
-- Any sequence of changes to the health map of proxy/src/health.rs leaves the database equal to it.
use flock.Base.{
  ℕ, ◌+◌, ◌-◌, ◌≤◌, ◌<◌, ◌^◌, ◌≡◌, refl, sym, ap, ◌∙◌, subst, Option, some, List, [], ◌∷◌, ◌++◌,
  String, String-discrete, ltb, find, keep, ite, length, as_i64, as_i64_small, u64, as_secs, arith,
  Bool-cases, inl, inr, keep-Unique, map_values, All, keep_whole,
}
use flock.Health.{
  Host, HealthInner, PersistOp, empty, live, record_health, record_latency, set_elo, set_sticky,
  sweep_expired_stickies, lookup, put, average, or_else,
}
use flock.Health.Store.{
  StateDb, provider_row, sticky_columns, outlives, no_rows, writer_loop, default_columns, touched,
  timed, ranked,
}
use flock.Health.Mirror.{
  Mirrors, SmallPin, Mirrors-health, Mirrors-latency, Mirrors-elo, Mirrors-sticky, row-write_row,
}
use flock.Health.Changes.{
  Change, Fits, health_recorded, latency_recorded, elo_set, sticky_set, stickies_swept, step, run,
}

outlives-live :
    (now : ℕ) (pin : String × ℕ)
    → now < 2 ^ 63
    → pin.1 < 2 ^ 63
    → outlives (as_i64 now) (sticky_columns pin) ≡ live now pin
outlives-live now (p, e) h k = rw (as_i64_small now h, as_i64_small e k) (ground arith)

pub swept_columns :
    (now : ℕ) (pins : List (String × (String × ℕ)))
    → now < 2 ^ 63
    → All SmallPin pins
    → keep (λ e. outlives (as_i64 now) e.1) (map_values String-discrete sticky_columns pins)
      ≡ map_values String-discrete sticky_columns (keep (λ e. live now e.1) pins)
swept_columns now [] h a = refl
swept_columns now ((s, (p, e)) ∷ pins) h (b, a) =
    ground (arith, outlives-live now (p, e) h b, swept_columns now pins h a)

keep-SmallPin :
    (now : ℕ) (pins : List (String × (String × ℕ)))
    → All SmallPin pins
    → All SmallPin (keep (λ e. live now e.1) pins)
keep-SmallPin now [] a = tt
keep-SmallPin now ((s, (p, e)) ∷ pins) (b, a) = ground (arith, keep-SmallPin now pins a)

module _ (host : Host) where
  abbrev sample_ms : ℕ → host.Float
  sample_ms latency = host.times (host.as_secs_f64 latency) host.thousand

  -- the latency of `p` last sampled, if the one before the change is `old`
  abbrev pub sampled : Change → String → Option host.Float → Option host.Float
  sampled (latency_recorded q latency) p old =
      ite (String-discrete q p) (some (sample_ms latency)) old
  sampled _ p old = old

  abbrev pub last_sample : List Change → String → Option host.Float → Option host.Float
  last_sample [] p old = old
  last_sample (c ∷ cs) p old = last_sample cs p (sampled c p old)

module _ {host : Host} where
  -- one change, and what the writer does with the ops that it queues before any others
  pub record Follows (g : HealthInner host) (c : Change) (db : StateDb host) : Type 0 where
    pub after : StateDb host
    pub mirrored : Mirrors (step g c).0 after
    pub written :
        (rest : List (PersistOp host))
        → writer_loop db ((step g c).1 ++ rest) ≡ writer_loop after rest
    pub latency_is :
        (p : String)
        → (provider_row after p).latency_ms ≡ sampled host c p (provider_row db p).latency_ms

  abbrev swept_db : StateDb host → ℕ → StateDb host
  swept_db db now = record db {
    sticky_sessions = keep (λ e. outlives (as_i64 now) e.1) db.sticky_sessions;
  }

  Mirrors-swept :
      (g : HealthInner host) (db : StateDb host) (now : ℕ)
      → now < 2 ^ 63
      → Mirrors g db
      → Mirrors (record g { stickies = keep (λ e. live now e.1) g.stickies }) (swept_db db now)
  unfolding provider_row
  Mirrors-swept g db now h m = record {
    health_is = m.health_is;
    probe_is = m.probe_is;
    elo_is = m.elo_is;
    pins_are =
        ap (λ t. keep (λ e. outlives (as_i64 now) e.1) t) m.pins_are
        ∙ swept_columns now g.stickies h m.pins_small;
    rows_unique = m.rows_unique;
    pins_unique = keep-Unique String-discrete (live now) g.stickies m.pins_unique;
    pins_small = keep-SmallPin now g.stickies m.pins_small;
  }

  Mirrors-unswept :
      (g : HealthInner host) (db : StateDb host) (now : ℕ)
      → length g.stickies ≤ length (keep (λ e. live now e.1) g.stickies)
      → Mirrors g db
      → Mirrors (record g { stickies = keep (λ e. live now e.1) g.stickies }) db
  Mirrors-unswept g db now h m =
      subst (λ t. Mirrors (record g { stickies = t }) db)
        (sym (keep_whole (λ e. live now e.1) g.stickies h)) m

  Follows-sweep :
      (g : HealthInner host) (db : StateDb host) (now : ℕ)
      → now < 2 ^ 63
      → Mirrors g db
      → Follows g (stickies_swept now) db
  unfolding step sweep_expired_stickies writer_loop provider_row
  Follows-sweep g db now h m =
      elim (Bool-cases (ltb 0 (length g.stickies - length (keep (λ e. live now e.1) g.stickies)))) [
        | inl e ↦ record {
          after = swept_db db now;
          mirrored = Mirrors-swept g db now h m;
          written = λ rest. rw e refl;
          latency_is = λ p. refl;
        }
        | inr e ↦ record {
          after = db;
          mirrored = Mirrors-unswept g db now (ground arith) m;
          written = λ rest. rw e refl;
          latency_is = λ p. refl;
        }
      ]

  abbrev pinned_db : StateDb host → String → String → ℕ → StateDb host
  pinned_db db session provider expires = record db {
    sticky_sessions = put session (sticky_columns (provider, expires)) db.sticky_sessions;
  }

  same_rows :
      (db db' : StateDb host) (p : String)
      → db'.provider_state ≡ db.provider_state
      → (provider_row db' p).latency_ms ≡ (provider_row db p).latency_ms
  unfolding provider_row
  same_rows db db' p e = ap (λ t. (or_else (lookup p t) (default_columns host)).latency_ms) e

  step-Follows :
      (g : HealthInner host) (c : Change) (db : StateDb host)
      → Fits c
      → Mirrors g db
      → Follows g c db
  unfolding step record_health record_latency set_elo set_sticky writer_loop
  step-Follows g (health_recorded p b now) db f m = record {
    after = _;
    mirrored = Mirrors-health g db m p b now;
    written = λ rest. refl;
    latency_is = λ q. ground (
      arith,
      row-write_row db p q (touched (provider_row db p) b now),
      ap (λ x. (provider_row db x).latency_ms),
    );
  }
  step-Follows g (latency_recorded p l) db f m = record {
    after = _;
    mirrored =
        Mirrors-latency g db m p (average host (sample_ms host l) (lookup p g.latencies_ms))
          (sample_ms host l);
    written = λ rest. refl;
    latency_is =
        λ q. ground (arith, row-write_row db p q (timed (provider_row db p) (sample_ms host l)));
  }
  step-Follows g (elo_set p elo) db f m = record {
    after = _;
    mirrored = Mirrors-elo g db m p elo;
    written = λ rest. refl;
    latency_is = λ q. ground (
      arith,
      row-write_row db p q (ranked (provider_row db p) elo),
      ap (λ x. (provider_row db x).latency_ms),
    );
  }
  step-Follows g (sticky_set s p ttl now) db f m = record {
    after = pinned_db db s p (u64 (now + as_secs ttl));
    mirrored = Mirrors-sticky g db m s p (u64 (now + as_secs ttl)) (omega arith);
    written = λ rest. refl;
    latency_is = λ q. same_rows db (pinned_db db s p (u64 (now + as_secs ttl))) q refl;
  }
  step-Follows g (stickies_swept now) db f m = Follows-sweep g db now f m

  -- After any sequence of changes whose times fit the database's signed columns, the writer that
  -- has read the whole queue holds what memory holds.
  pub run-Mirrors :
      (g : HealthInner host) (cs : List Change) (db : StateDb host)
      → All Fits cs
      → Mirrors g db
      → Mirrors (run g cs).0 (writer_loop db (run g cs).1)
  unfolding run writer_loop
  run-Mirrors g [] db fs m = m
  run-Mirrors g (c ∷ cs) db (f, fs) m =
      let one = step-Follows g c db f m in
      subst (λ d. Mirrors (run (step g c).0 cs).0 d) (sym (one.written (run (step g c).0 cs).1))
        (run-Mirrors (step g c).0 cs one.after fs one.mirrored)

  pub run-last_sample :
      (g : HealthInner host) (cs : List Change) (db : StateDb host) (p : String)
      → All Fits cs
      → Mirrors g db
      → (provider_row (writer_loop db (run g cs).1) p).latency_ms
        ≡ last_sample host cs p (provider_row db p).latency_ms
  unfolding run writer_loop
  run-last_sample g [] db p fs m = refl
  run-last_sample g (c ∷ cs) db p (f, fs) m =
      let one = step-Follows g c db f m in
      ap (λ d. (provider_row d p).latency_ms) (one.written (run (step g c).0 cs).1)
      ∙ run-last_sample (step g c).0 cs one.after p fs one.mirrored
      ∙ ap (last_sample host cs p) (one.latency_is p)

  pub empty-Mirrors : Mirrors (empty {host = host}) (no_rows {host = host})
  unfolding empty no_rows provider_row default_columns find as_i64
  empty-Mirrors = record {
    health_is = λ p. refl;
    probe_is = λ p. refl;
    elo_is = λ p. refl;
    pins_are = refl;
    rows_unique = tt;
    pins_unique = tt;
    pins_small = tt;
  }
