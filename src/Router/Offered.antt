-- ===== src/Router/Offered.antt =====
-- The orders of proxy/src/router.rs neither lose nor repeat a provider.
use mathlib.Core.List.Perm
use mathlib.Core.List.{Perm, perm_middle}
use flock.Base.{
  ℕ, zero, suc, ◌≤◌, ◌≡◌, refl, ap, Bool, true, false, Option, none, some, List, [], ◌∷◌, ◌++◌, map,
  if◌then◌else◌, length, arith,
}
use flock.Health.{Host, HealthInner}
use flock.Router.{ProviderRuntime}
use flock.Router.Order.{
  Weights, insert_sorted, sort_by, order_hybrid, order_latency, order_elo, elo_rounds, remove_at,
  by_latency, file_latency, latency_of, less_measured, less_unknown, pick,
}

module _ {A : Type 0} where
  insert_sorted-Perm :
      (less : A → A → Bool) (x : A) (ys : List A) → Perm (x ∷ ys) (insert_sorted less x ys)
  unfolding insert_sorted
  insert_sorted-Perm less x [] = Perm.refl (x ∷ [])
  insert_sorted-Perm less x (y ∷ ys) = chosen (less y x) (insert_sorted-Perm less x ys)
    where
      chosen :
          (b : Bool)
          → Perm (x ∷ ys) (insert_sorted less x ys)
          → Perm (x ∷ y ∷ ys) (if b then y ∷ insert_sorted less x ys else x ∷ y ∷ ys)
      chosen true ih = Perm.trans (Perm.swap y x ys) (Perm.cons y ih)
      chosen false ih = Perm.refl (x ∷ y ∷ ys)

  pub sort_by-Perm : (less : A → A → Bool) (xs : List A) → Perm xs (sort_by less xs)
  unfolding sort_by
  sort_by-Perm less [] = Perm.nil
  sort_by-Perm less (x ∷ xs) =
      Perm.trans (Perm.cons x (sort_by-Perm less xs)) (insert_sorted-Perm less x (sort_by less xs))

  remove_at-Perm :
      (i : ℕ) (x : A) (xs : List A) → Perm (x ∷ xs) ((remove_at i x xs).0 ∷ (remove_at i x xs).1)
  unfolding remove_at
  remove_at-Perm i x [] = Perm.refl (x ∷ [])
  remove_at-Perm zero x (y ∷ ys) = Perm.refl (x ∷ y ∷ ys)
  remove_at-Perm (suc i) x (y ∷ ys) =
      Perm.trans (Perm.cons x (remove_at-Perm i y ys)) (Perm.swap _ x _)

  length-remove_at : (i : ℕ) (x : A) (xs : List A) → length (remove_at i x xs).1 ≡ length xs
  unfolding remove_at
  length-remove_at i x [] = refl
  length-remove_at zero x (y ∷ ys) = refl
  length-remove_at (suc i) x (y ∷ ys) = ap suc (length-remove_at i y ys)

module _ {host : Host} (w : Weights host) (health : HealthInner host) where
  by_latency-Perm :
      (rts : List ProviderRuntime)
      → Perm rts (map (λ e. e.1) (by_latency w health rts).0 ++ (by_latency w health rts).1)
  unfolding by_latency
  by_latency-Perm [] = Perm.nil
  by_latency-Perm (rt ∷ rts) =
      filed (latency_of w health rt) (by_latency w health rts) (by_latency-Perm rts)
    where
      filed :
          (o : Option host.Float) (acc : List (host.Float × ProviderRuntime) × List ProviderRuntime)
          → Perm rts (map (λ e. e.1) acc.0 ++ acc.1)
          → Perm (rt ∷ rts) (
              map (λ e. e.1) (file_latency w health rt o acc).0
              ++ (file_latency w health rt o acc).1)
      filed none acc ih =
          Perm.trans (Perm.cons rt ih) (Perm.symm (perm_middle (map (λ e. e.1) acc.0) acc.1))
      filed (some ms) acc ih = Perm.cons rt ih

  elo_rounds-Perm :
      (n : ℕ) (rts : List ProviderRuntime) → length rts ≤ n → Perm rts (elo_rounds w health n rts)
  unfolding elo_rounds
  elo_rounds-Perm zero [] h = Perm.nil
  elo_rounds-Perm zero (rt ∷ rts) h = absurd (omega arith)
  elo_rounds-Perm (suc n) [] h = Perm.nil
  elo_rounds-Perm (suc n) (rt ∷ rts) h =
      let i = pick w health n (rt ∷ rts) in
      Perm.trans (remove_at-Perm i rt rts) (
        Perm.cons _
          (elo_rounds-Perm n (remove_at i rt rts).1 (omega (arith, length-remove_at i rt rts))))

  -- Each of these orders is a permutation of the providers that it is given.
  pub order_elo-Perm : (rts : List ProviderRuntime) → Perm rts (order_elo w health rts)
  unfolding order_elo
  order_elo-Perm rts = elo_rounds-Perm (length rts) rts (omega arith)

  pub order_latency-Perm : (rts : List ProviderRuntime) → Perm rts (order_latency w health rts)
  unfolding order_latency
  order_latency-Perm rts = sort_by-Perm _ rts

  pub order_hybrid-Perm : (rts : List ProviderRuntime) → Perm rts (order_hybrid w health rts)
  unfolding order_hybrid
  order_hybrid-Perm rts = Perm.trans (by_latency-Perm rts) (
      Perm.append
        (Perm.map (λ e. e.1) (sort_by-Perm (less_measured w health) (by_latency w health rts).0))
        (sort_by-Perm (less_unknown w health) (by_latency w health rts).1))
