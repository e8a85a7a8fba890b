-- ===== src/Pool/Budget.antt =====
-- The budget of one key of proxy/src/pool.rs over the life of the pool, settings changes included.
use flock.Base.{ℕ, ◌≤◌, ◌≡◌, refl, inl, inr, some, List, [], ◌∷◌, arith, String, Option-cases}
use flock.Pool.Ledger.{in_span}
use flock.Pool.Swap.{new-Distinct, find_lane-new}
use flock.Pool.{LaneSpec, new}
use flock.Pool.Track.{
  Call, reserves, releases, penalizes, rebuilds, Track, use_pool, use_all, Keeps, Orderly,
}
use flock.Pool.Kept.{Good, use_pool-Good, after}

Orderly-split :
    (k : String) (r now : ℕ) (c : Call) (cs : List Call)
    → Orderly k r now (c ∷ cs)
    → Orderly k r now (c ∷ []) × Orderly k r (after now c) cs
Orderly-split k r now (reserves _ t) cs o = (ground arith, o.1)
Orderly-split k r now (releases _ _) cs o = (tt, o)
Orderly-split k r now (penalizes _ _ t) cs o = (ground arith, o.1)
Orderly-split k r now (rebuilds specs t) cs o = ((o.0, o.1, tt), o.2)

use_all-within :
    (k : String) (r now : ℕ) (t t' : Track) (cs : List Call)
    → Orderly k r now cs
    → Good k r now t
    → use_all k t cs ≡ some t'
    → (w : ℕ) → in_span w t'.log ≤ r
unfolding use_all
use_all-within k r now t t' [] o g e =
    let same : t ≡ t' = ground (arith, e) in rw (← same) g.ledger.within
use_all-within k r now t t' (c ∷ cs) o g e = elim (Option-cases (use_pool k t c)) [
  | inl n ↦ absurd (ground arith)
  | inr (q, f) ↦
      let (one, rest) = Orderly-split k r now c cs o in
      use_all-within k r (after now c) q t' cs rest (use_pool-Good k r now t q c one g f)
        (ground (arith, f, e))
]

-- Whatever a pool is asked, settings changes included, no 61 s hold more than `r` grants of a key
-- that were not returned: if the pool starts with a lane of that key and an empty log, the key
-- stays in the settings, once and with a budget of at most `r`, and the clock does not run back.
pub grants_within_budget :
    (k : String) (r now : ℕ) (specs : List LaneSpec) (cs : List Call) (t : Track) (w : ℕ)
    → Keeps k r specs
    → Orderly k r now cs
    → use_all k (record { pool = new specs now; log = [] }) cs ≡ some t
    → in_span w t.log ≤ r
unfolding in_span
grants_within_budget k r now specs cs t w (d, (s, f, b)) o e =
    use_all-within k r now (record { pool = new specs now; log = [] }) t cs o
      (record {
        distinct = new-Distinct specs now d;
        lane = record { key = k; rpm = s.rpm; sent = []; cooldown_until = now };
        found = find_lane-new specs now k s d f;
        budget = b;
        ledger = record { gone = []; split = refl; expired = tt; within = λ v. ground arith };
      })
      e w
