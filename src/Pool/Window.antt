-- ===== src/Pool/Window.antt =====
-- The eviction of a lane's window in proxy/src/pool.rs.
use flock.Base.{ℕ, ◌+◌, ◌-◌, ◌≤◌, ◌≡◌, refl, List, [], ◌∷◌, ◌++◌, arith, leb, if◌then◌else◌, All}
use flock.Pool.Lanes.{window, evict}

abbrev pub Expired : ℕ → ℕ → Type 0
Expired now t = t + window ≤ now

pub evict_idem : (now : ℕ) (ts : List ℕ) → evict now (evict now ts) ≡ evict now ts
unfolding evict
evict_idem now [] = refl
evict_idem now (t ∷ ts) = ground (arith, evict_idem now ts)

-- the stamps that an eviction drops
unfoldable pub dropped : ℕ → List ℕ → List ℕ
dropped now [] = []
dropped now (t ∷ ts) = let rest = dropped now ts in if leb window (now - t) then t ∷ rest else []

pub dropped-append-evict : (now : ℕ) (ts : List ℕ) → dropped now ts ++ evict now ts ≡ ts
unfolding dropped evict
dropped-append-evict now [] = refl
dropped-append-evict now (t ∷ ts) = ground (arith, dropped-append-evict now ts)

pub dropped-Expired : (now : ℕ) (ts : List ℕ) → All (Expired now) (dropped now ts)
unfolding dropped
dropped-Expired now [] = tt
dropped-Expired now (t ∷ ts) = ground (arith, dropped-Expired now ts)
