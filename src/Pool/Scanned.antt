-- ===== src/Pool/Scanned.antt =====
-- The scan of the lanes in proxy/src/pool.rs does not index out of bounds, and what it comes to.
use flock.Base.{
  ℕ, zero, suc, ◌+◌, ◌-◌, ◌<◌, ◌≡◌, refl, inl, inr, Option, none, some, List, [], ◌∷◌, arith, ltb,
  ◌==◌, if◌then◌else◌, length, get_elem?, get_or, max, Bool-cases,
}
use flock.Pool.Lanes.{Lane, window, refresh, window_ready, ready_at}
use flock.Pool.{Pool, Reservation, Scan, scan_lane, scan, sort_loads, first_ready, reserve_any}

-- when a refreshed lane is ready
unfoldable pub due_at : ℕ → Lane → ℕ
due_at now l =
    max
      (if ltb (length l.sent) l.rpm
        then now
        else (if l.rpm == 0
            then now + window
            else get_or l.sent (length l.sent - l.rpm) 0 + window))
      l.cooldown_until

get_elem?-get_or : (xs : List ℕ) (i : ℕ) → i < length xs → get_elem? xs i ≡ some (get_or xs i 0)
get_elem?-get_or [] i h = absurd (omega arith)
get_elem?-get_or (x ∷ xs) zero h = refl
get_elem?-get_or (x ∷ xs) (suc i) h = get_elem?-get_or xs i (omega arith)

-- the test of the budget keeps the index inside
pub ready_at_total : (now : ℕ) (l : Lane) → ready_at now l ≡ some (due_at now l)
unfolding ready_at window_ready due_at
ready_at_total now l = elim (Bool-cases (ltb (length l.sent) l.rpm)) [
  | inl t ↦ rw t refl
  | inr f ↦ elim (Bool-cases (l.rpm == 0)) [
    | inl z ↦ rw (f, z) refl
    | inr n ↦ rw (f, n, get_elem?-get_or l.sent (length l.sent - l.rpm) (ground (arith, f, n))) refl
  ]
]

-- what the scan leaves
unfoldable pub sweep : ℕ → ℕ → ℕ → List Lane → Scan
sweep now zero i ls = record { lanes = ls; loads = []; best_wait = window }
sweep now (suc n) i [] = record { lanes = []; loads = []; best_wait = window }
sweep now (suc n) i (l ∷ ls) =
    scan_lane now i (refresh now l) (due_at now (refresh now l)) (sweep now n (suc i) ls)

pub scan_total : (now n i : ℕ) (ls : List Lane) → scan now n i ls ≡ some (sweep now n i ls)
unfolding scan sweep
scan_total now zero i ls = refl
scan_total now (suc n) i [] = refl
scan_total now (suc n) i (l ∷ ls) =
    rw (ready_at_total now (refresh now l), scan_total now n (suc i) ls) refl

unfoldable pub reserve_swept : Pool → ℕ → Option (Pool × Reservation)
reserve_swept p now =
    if ltb (length p.lanes) p.active
    then none
    else (let s = sweep now p.active 0 p.lanes in
        first_ready (record p { lanes = s.lanes }) now (sort_loads s.loads) s.best_wait)

pub reserve_any_swept : (p : Pool) (now : ℕ) → reserve_any p now ≡ reserve_swept p now
unfolding reserve_any reserve_swept
reserve_any_swept p now = rw (scan_total now p.active 0 p.lanes) refl
