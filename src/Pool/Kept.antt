-- ===== src/Pool/Kept.antt =====
-- What each call of proxy/src/pool.rs keeps of one key's lane and its ledger.
use flock.Base.{
  ℕ, ◌+◌, ◌≤◌, ◌≡◌, refl, ◌⊎◌, inl, inr, Bool, true, false, none, some, List, [], ◌∷◌, arith,
  if◌then◌else◌, get_elem?, set, Bool-cases, String, Option-cases, subst, max,
}
use flock.Pool.Lanes.{Lane, remove_last}
use flock.Pool.Moves.{MovedAll, granted, GrantOf, key_at, Moved, Moved-rpm, reserve-Reserved}
use flock.Pool.Ledger.{Ledger, Ledger-later, Ledger-Moved, Ledger-release}
use flock.Pool.Keys.{
  Distinct, is_key, Distinct-moved, find_lane-kept, find_lane-Moved, Distinct-set, find_lane-set,
}
use flock.Pool.Swap.{rebuild-Distinct, find_lane-rebuild}
use flock.Pool.{
  Pool, LaneSpec, Reservation, ready, wait, find_lane, rebuild, reserve, release, penalize,
}
use flock.Pool.Track.{
  Call, reserves, releases, penalizes, rebuilds, Track, logged, use_pool, Keeps, Orderly,
}

-- what holds of key `k` between two calls
pub record Good (k : String) (r now : ℕ) (t : Track) : Type 0 where
  pub distinct : Distinct t.pool.lanes
  pub lane : Lane
  pub found : find_lane k t.pool.lanes ≡ some lane
  pub budget : lane.rpm ≤ r
  pub ledger : Ledger r now lane t.log

Good-later :
    (k : String) (r now later : ℕ) (t : Track) → now ≤ later → Good k r now t → Good k r later t
Good-later k r now later t h g = record {
  distinct = g.distinct;
  lane = g.lane;
  found = g.found;
  budget = g.budget;
  ledger = Ledger-later r now later g.lane t.log h g.ledger;
}

reserved-Good :
    (k : String) (r now : ℕ) (t : Track) (p' : Pool) (x : Reservation)
    → MovedAll now (granted x) 0 t.pool.lanes p'.lanes
    → GrantOf now t.pool.lanes x
    → Good k r now t
    → Good k r now (record { pool = p'; log = logged k x t.log })
reserved-Good k r now t p' (wait d) m s g =
    let (l', found', moved) = find_lane-kept now 0 k t.pool.lanes p'.lanes g.lane m g.found in
    record {
      distinct = Distinct-moved now 0 none t.pool.lanes p'.lanes m g.distinct;
      lane = l';
      found = found';
      budget = rw (Moved-rpm now g.lane l' false moved) g.budget;
      ledger = Ledger-Moved r now g.lane l' t.log false g.budget moved g.ledger;
    }
reserved-Good k r now t p' (ready i key stamp sticky) m s g =
    let own : Bool = is_key (some key) k in
    let (l', found', moved) =
      find_lane-Moved now 0 i i k t.pool.lanes p'.lanes g.lane (omega arith) m g.distinct g.found in
    let moved' : Moved now g.lane l' own = rw s.1 at moved in
    record {
      distinct = Distinct-moved now 0 (some i) t.pool.lanes p'.lanes m g.distinct;
      lane = l';
      found = found';
      budget = rw (Moved-rpm now g.lane l' own moved') g.budget;
      ledger = rw s.0 (Ledger-Moved r now g.lane l' t.log own g.budget moved' g.ledger);
    }

released-Good :
    (k : String) (r now i stamp : ℕ) (t : Track) (x : Lane)
    → get_elem? t.pool.lanes i ≡ some x
    → Good k r now t
    → Good k r now (record {
      pool = record t.pool {
        lanes = set t.pool.lanes i (record x { sent = remove_last stamp x.sent });
      };
      log = if is_key (key_at t.pool.lanes i) k then remove_last stamp t.log else t.log;
    })
released-Good k r now i stamp t x e g = elim (Bool-cases (is_key (key_at t.pool.lanes i) k)) [
  | inl own ↦ rw own (record {
    distinct = distinct';
    lane = x';
    found = ground (arith, own, set_lem);
    budget = ground (arith, own, set_lem, g.budget);
    ledger = rw (← same own) (Ledger-release r now stamp g.lane t.log g.ledger);
  })
  | inr other ↦ rw other (record {
    distinct = distinct';
    lane = g.lane;
    found = ground (arith, other, set_lem);
    budget = g.budget;
    ledger = g.ledger;
  })
]
  where
    x' : Lane
    x' = record x { sent = remove_last stamp x.sent }

    set_lem :
        (find_lane k (set t.pool.lanes i x')
          ≡ some (if is_key (key_at t.pool.lanes i) k then x' else g.lane))
        × ((is_key (key_at t.pool.lanes i) k ≡ false) ⊎ (g.lane ≡ x))
    set_lem = find_lane-set x' k t.pool.lanes i x g.lane e refl g.distinct g.found

    distinct' : Distinct (set t.pool.lanes i x')
    distinct' = Distinct-set x' t.pool.lanes i x e refl g.distinct

    same : is_key (key_at t.pool.lanes i) k ≡ true → g.lane ≡ x
    same own = ground (arith, own, set_lem)

-- the cooldown is no part of the ledger
cooled-Ledger :
    (r now until : ℕ) (l : Lane) (log : List ℕ)
    → Ledger r now l log
    → Ledger r now (record l { cooldown_until = until }) log
cooled-Ledger r now until l log g = record {
  gone = g.gone;
  split = g.split;
  expired = g.expired;
  within = g.within;
}

penalized-Good :
    (k : String) (r now i until : ℕ) (t : Track) (x : Lane)
    → get_elem? t.pool.lanes i ≡ some x
    → Good k r now t
    → Good k r now (record t {
      pool = record t.pool { lanes = set t.pool.lanes i (record x { cooldown_until = until }) };
    })
penalized-Good k r now i until t x e g = elim (Bool-cases (is_key (key_at t.pool.lanes i) k)) [
  | inl own ↦ record {
    distinct = distinct';
    lane = x';
    found = ground (arith, own, set_lem);
    budget = ground (arith, own, set_lem, g.budget);
    ledger = rw (← same own) (cooled-Ledger r now until g.lane t.log g.ledger);
  }
  | inr other ↦ record {
    distinct = distinct';
    lane = g.lane;
    found = ground (arith, other, set_lem);
    budget = g.budget;
    ledger = g.ledger;
  }
]
  where
    x' : Lane
    x' = record x { cooldown_until = until }

    set_lem :
        (find_lane k (set t.pool.lanes i x')
          ≡ some (if is_key (key_at t.pool.lanes i) k then x' else g.lane))
        × ((is_key (key_at t.pool.lanes i) k ≡ false) ⊎ (g.lane ≡ x))
    set_lem = find_lane-set x' k t.pool.lanes i x g.lane e refl g.distinct g.found

    distinct' : Distinct (set t.pool.lanes i x')
    distinct' = Distinct-set x' t.pool.lanes i x e refl g.distinct

    same : is_key (key_at t.pool.lanes i) k ≡ true → g.lane ≡ x
    same own = ground (arith, own, set_lem)

rebuilt-Good :
    (k : String) (r now at : ℕ) (t : Track) (specs : List LaneSpec)
    → Keeps k r specs
    → Good k r now t
    → Good k r now (record t { pool = rebuild t.pool specs at })
rebuilt-Good k r now at t specs (d, (s, f, b)) g = record {
  distinct = rebuild-Distinct t.pool specs at d;
  lane = record {
    key = k;
    rpm = s.rpm;
    sent = g.lane.sent;
    cooldown_until = g.lane.cooldown_until;
  };
  found = find_lane-rebuild t.pool specs at k s g.lane d f g.found;
  budget = b;
  ledger = record {
    gone = g.ledger.gone;
    split = g.ledger.split;
    expired = g.ledger.expired;
    within = g.ledger.within;
  };
}

-- one call: the time it leaves is the time that the next call must not precede
abbrev pub after : ℕ → Call → ℕ
after now (reserves _ t) = t
after now (releases _ _) = now
after now (penalizes _ _ t) = t
after now (rebuilds _ t) = t

pub use_pool-Good :
    (k : String) (r now : ℕ) (t t' : Track) (c : Call)
    → Orderly k r now (c ∷ [])
    → Good k r now t
    → use_pool k t c ≡ some t'
    → Good k r (after now c) t'
unfolding use_pool release penalize
use_pool-Good k r now t t' (reserves prefer at) o g e =
    elim (Option-cases (reserve t.pool prefer at)) [
      | inl n ↦ absurd (ground arith)
      | inr ((p', x), q) ↦
          let (m, _, s) = reserve-Reserved at prefer t.pool p' x q in
          let same : record { pool = p'; log = logged k x t.log } ≡ t' = ground (arith, q, e) in
          rw (← same) (reserved-Good k r at t p' x m s (Good-later k r now at t o.0 g))
    ]
use_pool-Good k r now t t' (releases i stamp) o g e =
    elim (Option-cases (get_elem? t.pool.lanes i)) [
      | inl n ↦ absurd (ground arith)
      | inr (x, q) ↦
          subst (Good k r now) (ground (arith, q, e)) (released-Good k r now i stamp t x q g)
    ]
use_pool-Good k r now t t' (penalizes i backoff at) o g e =
    elim (Option-cases (get_elem? t.pool.lanes i)) [
      | inl n ↦ absurd (ground arith)
      | inr (x, q) ↦ subst (Good k r at) (ground (arith, q, e)) (
          penalized-Good k r at i (max x.cooldown_until (at + backoff)) t x q
            (Good-later k r now at t o.0 g))
    ]
use_pool-Good k r now t t' (rebuilds specs at) o g e =
    subst (Good k r at) (ground (arith, e))
      (rebuilt-Good k r at at t specs o.1 (Good-later k r now at t o.0 g))
