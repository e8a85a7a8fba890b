-- ===== src/Health/Mirror.antt =====
-- The state database holds what the health map holds: proxy/src/health.rs writes through.
use flock.Base.{
  ℕ, ◌<◌, ◌^◌, ◌≡◌, sym, ap, ◌∙◌, Bool, true, List, [], ◌∷◌, String, String-discrete, insert, ℤ,
  pos, as_i64, arith, find-insert, Unique, insert-Unique, map_values, insert-map_values, All,
}
use flock.Health.{Host, HealthInner, lookup, put, or_else}
use flock.Health.Store.{
  StateDb, ProviderColumns, provider_row, bool_code, sticky_columns, write_row, touched, timed,
  ranked,
}

-- an expiry that the signed column orders as memory does
abbrev pub SmallPin : String × (String × ℕ) → Type 0
SmallPin (session, (provider, expires)) = expires < 2 ^ 63

pub lookup-put_or :
    {V : Type 0} (p q : String) (v d : V) (m : List (String × V))
    → or_else (lookup q (put p v m)) d
      ≡ elim (String-discrete p q) [ yes _ ↦ v | no _ ↦ or_else (lookup q m) d ]
lookup-put_or p q v d m = ground (arith, find-insert String-discrete p q v m)

put-SmallPin :
    (s p : String) (e : ℕ) (m : List (String × (String × ℕ)))
    → e < 2 ^ 63
    → All SmallPin m
    → All SmallPin (put s (p, e) m)
unfolding insert
put-SmallPin s p e [] h a = (h, tt)
put-SmallPin s p e ((j, w) ∷ m) h (b, a) = ground (arith, put-SmallPin s p e m h a)

module _ {host : Host} where
  pub record Mirrors (g : HealthInner host) (db : StateDb host) : Type 0 where
    pub health_is :
        (p : String) → (provider_row db p).healthy ≡ bool_code (or_else (lookup p g.healthy) true)
    pub probe_is :
        (p : String)
        → (provider_row db p).last_probe_unix ≡ as_i64 (or_else (lookup p g.last_probe_unix) 0)
    pub elo_is : (p : String) → (provider_row db p).elo ≡ or_else (lookup p g.elos) (pos 1500)
    pub pins_are : db.sticky_sessions ≡ map_values String-discrete sticky_columns g.stickies
    pub rows_unique : Unique String-discrete db.provider_state
    pub pins_unique : Unique String-discrete g.stickies
    pub pins_small : All SmallPin g.stickies

  pub row-write_row :
      (db : StateDb host) (p q : String) (row : ProviderColumns host)
      → provider_row (write_row db p row) q
        ≡ elim (String-discrete p q) [ yes _ ↦ row | no _ ↦ provider_row db q ]
  unfolding provider_row
  row-write_row db p q row = ground (arith, find-insert String-discrete p q row db.provider_state)

  write_row-Unique :
      (db : StateDb host) (p : String) (row : ProviderColumns host)
      → Unique String-discrete db.provider_state
      → Unique String-discrete (write_row db p row).provider_state
  write_row-Unique db p row u = insert-Unique String-discrete p row db.provider_state u

  module _ (g : HealthInner host) (db : StateDb host) (m : Mirrors g db) (p : String) where
    pub Mirrors-health :
        (b : Bool) (now : ℕ)
        → Mirrors
            (record g {
              healthy = put p b g.healthy;
              last_probe_unix = put p now g.last_probe_unix;
            })
            (write_row db p (touched (provider_row db p) b now))
    Mirrors-health b now = record {
      health_is = λ q. ground (
        arith,
        row-write_row db p q (touched (provider_row db p) b now),
        lookup-put_or p q b true g.healthy,
        m.health_is q,
      );
      probe_is = λ q. ground (
        arith,
        row-write_row db p q (touched (provider_row db p) b now),
        lookup-put_or p q now 0 g.last_probe_unix,
        m.probe_is q,
      );
      elo_is = λ q. ground (
        arith,
        row-write_row db p q (touched (provider_row db p) b now),
        m.elo_is q,
        ap (λ x. (provider_row db x).elo),
      );
      pins_are = m.pins_are;
      rows_unique = write_row-Unique db p _ m.rows_unique;
      pins_unique = m.pins_unique;
      pins_small = m.pins_small;
    }

    pub Mirrors-latency :
        (e ms : host.Float)
        → Mirrors
            (record g { latencies_ms = put p e g.latencies_ms })
            (write_row db p (timed (provider_row db p) ms))
    Mirrors-latency e ms = record {
      health_is = λ q. ground (
        arith,
        row-write_row db p q (timed (provider_row db p) ms),
        m.health_is q,
        m.health_is p,
        ap (λ x. (provider_row db x).healthy),
      );
      probe_is = λ q. ground (
        arith,
        row-write_row db p q (timed (provider_row db p) ms),
        m.probe_is q,
        ap (λ x. (provider_row db x).last_probe_unix),
      );
      elo_is = λ q. ground (
        arith,
        row-write_row db p q (timed (provider_row db p) ms),
        m.elo_is q,
        ap (λ x. (provider_row db x).elo),
      );
      pins_are = m.pins_are;
      rows_unique = write_row-Unique db p _ m.rows_unique;
      pins_unique = m.pins_unique;
      pins_small = m.pins_small;
    }

    pub Mirrors-elo :
        (elo : ℤ)
        → Mirrors
            (record g { elos = put p elo g.elos })
            (write_row db p (ranked (provider_row db p) elo))
    Mirrors-elo elo = record {
      health_is = λ q. ground (
        arith,
        row-write_row db p q (ranked (provider_row db p) elo),
        m.health_is q,
        ap (λ x. (provider_row db x).healthy),
      );
      probe_is = λ q. ground (
        arith,
        row-write_row db p q (ranked (provider_row db p) elo),
        m.probe_is q,
        ap (λ x. (provider_row db x).last_probe_unix),
      );
      elo_is = λ q. ground (
        arith,
        row-write_row db p q (ranked (provider_row db p) elo),
        lookup-put_or p q elo (pos 1500) g.elos,
        m.elo_is q,
      );
      pins_are = m.pins_are;
      rows_unique = write_row-Unique db p _ m.rows_unique;
      pins_unique = m.pins_unique;
      pins_small = m.pins_small;
    }

    pub Mirrors-sticky :
        (provider : String) (expires : ℕ)
        → expires < 2 ^ 63
        → Mirrors
            (record g { stickies = put p (provider, expires) g.stickies })
            (record db {
              sticky_sessions = put p (sticky_columns (provider, expires)) db.sticky_sessions;
            })
    unfolding provider_row
    Mirrors-sticky provider expires h = record {
      health_is = m.health_is;
      probe_is = m.probe_is;
      elo_is = m.elo_is;
      pins_are =
          ap (λ t. put p (sticky_columns (provider, expires)) t) m.pins_are
          ∙ sym (insert-map_values String-discrete sticky_columns p (provider, expires) g.stickies);
      rows_unique = m.rows_unique;
      pins_unique = insert-Unique String-discrete p (provider, expires) g.stickies m.pins_unique;
      pins_small = put-SmallPin p provider expires g.stickies h m.pins_small;
    }
