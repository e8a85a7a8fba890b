-- ===== src/Router/Order.antt =====
-- The orders of the strategies in proxy/src/router.rs. What they compute on `f64`, and the random
-- rolls of `order_elo`, are parameters; the standard sort is an insertion sort, as it is stable.
use flock.Base.{
  ℕ, zero, suc, ◌+◌, ◌-◌, ◌%◌, ◌^◌, Bool, true, false, Option, none, some, List, [], ◌∷◌, ◌++◌,
  ◌==◌, if◌then◌else◌, length, get_or, usize, map, ℤ, pos, negsuc, ltb_ℤ,
}
use flock.Health.{Host, HealthInner, latency_ms, get_elo}
use flock.Providers.{ProviderDef}
use flock.Router.{ProviderRuntime}

-- comparison of latencies and the arithmetic of the weights
pub record Weights (host : Host) : Type 1 where
  pub less : host.Float → host.Float → Bool
  pub zero_weight : host.Float
  pub minus : host.Float → host.Float → host.Float
  pub at_most_zero : host.Float → Bool
  pub of_elo : ℤ → host.Float
  pub weight : ProviderDef → host.Float  -- `weight.max(0.0)`
  pub roll : ℕ → host.Float → host.Float  -- `gen_range(0.0..total)`, with so many rounds left

-- a stable sort: an entry goes before the first one that is not less
module _ {A : Type 0} (less : A → A → Bool) where
  unfoldable pub insert_sorted : A → List A → List A
  insert_sorted x [] = x ∷ []
  insert_sorted x (y ∷ ys) =
      let rest = insert_sorted x ys in if less y x then y ∷ rest else x ∷ y ∷ ys

  unfoldable pub sort_by : List A → List A
  unfolding insert_sorted
  sort_by [] = []
  sort_by (x ∷ xs) = insert_sorted x (sort_by xs)

-- `-elo`, which wraps at the least `i32`
abbrev pub neg_i32 : ℤ → ℤ
neg_i32 (pos zero) = pos 0
neg_i32 (pos (suc n)) = negsuc n
neg_i32 (negsuc n) = if n == 2 ^ 31 - 1 then negsuc n else pos (suc n)

-- the entry at an index, and the others
unfoldable pub remove_at : {A : Type 0} → ℕ → A → List A → A × List A
remove_at i x [] = (x, [])
remove_at zero x (y ∷ ys) = (x, y ∷ ys)
remove_at (suc i) x (y ∷ ys) = let (a, rest) = remove_at i y ys in (a, x ∷ rest)

module _ {host : Host} (w : Weights host) (health : HealthInner host) where
  abbrev pub latency_of : ProviderRuntime → Option host.Float
  latency_of rt = latency_ms health rt.def.name

  abbrev pub elo_of : ProviderRuntime → ℤ
  elo_of rt = get_elo health rt.def.name

  abbrev pub less_measured : host.Float × ProviderRuntime → host.Float × ProviderRuntime → Bool
  less_measured a b = w.less a.0 b.0

  abbrev pub less_unknown : ProviderRuntime → ProviderRuntime → Bool
  less_unknown a b = ltb_ℤ (neg_i32 (elo_of a)) (neg_i32 (elo_of b))

  abbrev pub file_latency :
      ProviderRuntime
      → Option host.Float
      → List (host.Float × ProviderRuntime) × List ProviderRuntime
      → List (host.Float × ProviderRuntime) × List ProviderRuntime
  file_latency rt none (measured, unknown) = (measured, rt ∷ unknown)
  file_latency rt (some ms) (measured, unknown) = ((ms, rt) ∷ measured, unknown)

  unfoldable pub by_latency :
      List ProviderRuntime → List (host.Float × ProviderRuntime) × List ProviderRuntime
  by_latency [] = ([], [])
  by_latency (rt ∷ rts) = file_latency rt (latency_of rt) (by_latency rts)

  unfoldable pub order_hybrid : List ProviderRuntime → List ProviderRuntime
  unfolding by_latency sort_by
  order_hybrid rts =
      map (λ e. e.1) (sort_by less_measured (by_latency rts).0)
      ++ sort_by less_unknown (by_latency rts).1

  abbrev pub less_latency : Option host.Float → Option host.Float → Bool
  less_latency (some x) (some y) = w.less x y
  less_latency (some x) none = true
  less_latency none _ = false

  unfoldable pub order_latency : List ProviderRuntime → List ProviderRuntime
  unfolding sort_by
  order_latency = sort_by (λ a b. less_latency (latency_of a) (latency_of b))

  -- a nonpositive ELO counts as 1500
  abbrev pub weight_of : ProviderRuntime → host.Float
  weight_of rt =
      host.times (w.of_elo (if ltb_ℤ (pos 0) (elo_of rt) then elo_of rt else pos 1500))
        (w.weight rt.def)

  unfoldable pub total_from : host.Float → List ProviderRuntime → host.Float
  total_from sum [] = sum
  total_from sum (rt ∷ rts) = total_from (host.plus sum (weight_of rt)) rts

  unfoldable pub total_of : List ProviderRuntime → host.Float
  unfolding total_from
  total_of rts = total_from w.zero_weight rts

  -- the first index at which the roll is used up, or 0
  unfoldable pub index_of_roll : host.Float → ℕ → List ProviderRuntime → ℕ
  index_of_roll left i [] = 0
  index_of_roll left i (rt ∷ rts) =
      let left' = w.minus left (weight_of rt) in
      let rest = index_of_roll left' (suc i) rts in if w.at_most_zero left' then i else rest

  unfoldable pub pick : ℕ → List ProviderRuntime → ℕ
  unfolding total_of index_of_roll
  pick n rts =
      if w.at_most_zero (total_of rts) then 0 else index_of_roll (w.roll n (total_of rts)) 0 rts

  -- one round takes one provider, so as many rounds as providers are enough
  unfoldable pub elo_rounds : ℕ → List ProviderRuntime → List ProviderRuntime
  unfolding pick remove_at
  elo_rounds zero rts = []
  elo_rounds (suc n) [] = []
  elo_rounds (suc n) (rt ∷ rts) =
      let (picked, rest) = remove_at (pick n (rt ∷ rts)) rt rts in picked ∷ elo_rounds n rest

  unfoldable pub order_elo : List ProviderRuntime → List ProviderRuntime
  unfolding elo_rounds
  order_elo rts = elo_rounds (length rts) rts

-- `(0..n).map(|i| rts[(start + i) % n])`, from `i`
unfoldable pub rotate_from :
    ProviderRuntime → List ProviderRuntime → ℕ → ℕ → ℕ → List ProviderRuntime
rotate_from first rts start i zero = []
rotate_from first rts start i (suc left) =
    get_or rts (usize (start + i) % length rts) first ∷ rotate_from first rts start (suc i) left

unfoldable pub order_round_robin : ℕ → List ProviderRuntime → List ProviderRuntime
unfolding rotate_from
order_round_robin start [] = []
order_round_robin start (rt ∷ rts) = rotate_from rt (rt ∷ rts) start 0 (length (rt ∷ rts))
