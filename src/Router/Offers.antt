-- ===== src/Router/Offers.antt =====
-- What `select` of proxy/src/router.rs offers a request.
use mathlib.Core.List.Perm
use mathlib.Core.List.{Perm}
use flock.Base.{
  ℕ, ◌+◌, ◌≤◌, ◌^◌, ◌≡◌, refl, sym, ap, ◌∙◌, subst, Bool, true, false, ◌&&◌, ◌||◌, Option, none,
  some, List, [], ◌∷◌, String, keep, map, length, usize, arith, length-keep-le, keep-keep,
}
use flock.Health.{Host, get_sticky}
use flock.Providers.{ProviderDef, serves_model, map_model}
use flock.Router.{
  Strategy, hybrid, ast_race, sticky_affinity, weighted_elo, least_latency, round_robin, free,
  circuit_chain, ProviderRuntime, RouterInner, RouteCandidate, runtime, candidate_ok,
}
use flock.Router.Order.{Weights}
use flock.Router.Offered.{order_hybrid-Perm, order_elo-Perm, order_latency-Perm}
use flock.Router.Rotation.{order_round_robin-Perm}
use flock.Router.Select.{
  is_free_directive, effective_strategy, candidate_of, found_all, in_scope, ordered,
  select_in_order, pinned, gated_pin, pinned_candidate, first_pinned, select,
}

abbrev pub allowed_by : Strategy → ProviderDef → Bool
allowed_by free d = d.free_tier
allowed_by _ d = true

keep_all : {A : Type 0} (xs : List A) → keep (λ x. true) xs ≡ xs
keep_all [] = refl
keep_all (x ∷ xs) = ap (λ ys. x ∷ ys) (keep_all xs)

whole : {A : Type 0} (xs ys : List A) → Perm xs ys → Perm (keep (λ x. true) xs) ys
whole xs ys p = subst (λ zs. Perm zs ys) (sym (keep_all xs)) p

module _ {host : Host} (w : Weights host) (env : String → Option String)
    (r : RouterInner host) where
  -- the gates, the scope of the model and the strategy's own filter
  abbrev pub offered : Strategy → String → ProviderRuntime → Bool
  offered strategy model rt =
      candidate_ok env r rt
      && (is_free_directive model || serves_model rt.def model)
      && allowed_by strategy rt.def

  length-found_all-le : (names : List String) → length (found_all r names) ≤ length names
  unfolding found_all
  length-found_all-le [] = omega arith
  length-found_all-le (n ∷ names) = ground (arith, length-found_all-le names)

  length-in_scope-le : (model : String) → length (in_scope w env r model) ≤ length r.order
  unfolding in_scope
  length-in_scope-le model = omega (
    arith,
    length-found_all-le r.order,
    length-keep-le (candidate_ok env r) (found_all r r.order),
    length-keep-le (λ rt. is_free_directive model || serves_model rt.def model)
        (keep (candidate_ok env r) (found_all r r.order)),
  )

  in_scope-keep :
      (strategy : Strategy) (model : String)
      → keep (λ rt. allowed_by strategy rt.def) (in_scope w env r model)
        ≡ keep (offered strategy model) (found_all r r.order)
  unfolding in_scope
  in_scope-keep strategy model =
      ap (keep (λ rt. allowed_by strategy rt.def)) (
        keep-keep (λ rt. is_free_directive model || serves_model rt.def model) (candidate_ok env r)
          (found_all r r.order))
      ∙ keep-keep (λ rt. allowed_by strategy rt.def)
          (λ rt. candidate_ok env r rt && (is_free_directive model || serves_model rt.def model))
          (found_all r r.order)

  ordered-Perm :
      (strategy : Strategy) (rts : List ProviderRuntime)
      → usize r.rounds + length rts ≤ 2 ^ 64
      → Perm (keep (λ rt. allowed_by strategy rt.def) rts) (ordered w env r strategy rts)
  unfolding ordered
  ordered-Perm hybrid rts h = whole rts _ (order_hybrid-Perm w r.health rts)
  ordered-Perm ast_race rts h = whole rts _ (Perm.refl rts)
  ordered-Perm sticky_affinity rts h = whole rts _ (order_hybrid-Perm w r.health rts)
  ordered-Perm weighted_elo rts h = whole rts _ (order_elo-Perm w r.health rts)
  ordered-Perm least_latency rts h = whole rts _ (order_latency-Perm w r.health rts)
  ordered-Perm round_robin rts h = whole rts _ (order_round_robin-Perm (usize r.rounds) rts h)
  ordered-Perm free rts h = Perm.refl _
  ordered-Perm circuit_chain rts h = whole rts _ (order_hybrid-Perm w r.health rts)

  select_in_order-Perm :
      (strategy : Strategy) (model : String)
      → usize r.rounds + length r.order ≤ 2 ^ 64
      → Perm
          (map (candidate_of strategy model) (keep (offered strategy model) (found_all r r.order)))
          (select_in_order w env r strategy model).1
  unfolding select_in_order
  select_in_order-Perm strategy model h = Perm.map (candidate_of strategy model) (
      subst (λ rts. Perm rts (ordered w env r strategy (in_scope w env r model)))
        (in_scope-keep strategy model)
        (ordered-Perm strategy (in_scope w env r model) (omega (arith, length-in_scope-le model))))

  -- The pin of a session names a provider that passes the gates.
  abbrev pub PinHolds : Strategy → String → ℕ → String → ProviderRuntime → Type 0
  PinHolds strategy session now provider rt =
      (strategy ≡ sticky_affinity)
      × (get_sticky r.health session now ≡ some provider)
      × (runtime r provider ≡ some rt)
      × (candidate_ok env r rt ≡ true)

  -- what a request is offered
  pub data Offers (strategy : Strategy) (model session : String) (now : ℕ)
      : List RouteCandidate → Type 0 where
    only_pinned :
        (provider : String) (rt : ProviderRuntime)
        → PinHolds strategy session now provider rt
        → Offers strategy model session now (
            record { provider = provider; model = map_model rt.def model; strategy = strategy }
            ∷ [])
    all_offered :
        (cs : List RouteCandidate)
        → ((provider : String) (rt : ProviderRuntime) → ¬ PinHolds strategy session now provider rt)
        → Perm
            (map
              (candidate_of strategy model)
              (keep (offered strategy model) (found_all r r.order)))
            cs
        → Offers strategy model session now cs

  module _ (model session : String) (now : ℕ)
      (fits : usize r.rounds + length r.order ≤ 2 ^ 64) where
    in_order :
        (strategy : Strategy)
        → ((provider : String) (rt : ProviderRuntime) → ¬ PinHolds strategy session now provider rt)
        → Offers strategy model session now (select_in_order w env r strategy model).1
    in_order strategy no_pin = all_offered _ no_pin (select_in_order-Perm strategy model fits)

    not_sticky :
        (strategy : Strategy)
        → (strategy ≡ sticky_affinity → ⊥)
        → Offers strategy model session now (select_in_order w env r strategy model).1
    not_sticky strategy h = in_order strategy (λ provider rt pin. h pin.0)

    gated-Offers :
        (provider : String) (rt : ProviderRuntime) (b : Bool)
        → get_sticky r.health session now ≡ some provider
        → runtime r provider ≡ some rt
        → candidate_ok env r rt ≡ b
        → Offers sticky_affinity model session now
            (first_pinned w env r sticky_affinity model (gated_pin w env b provider model rt)).1
    gated-Offers provider rt true e f g = only_pinned provider rt (refl, e, f, g)
    gated-Offers provider rt false e f g = in_order sticky_affinity (λ p q (_, e', f', g'). cc)

    runtime-Offers :
        (provider : String) (o : Option ProviderRuntime)
        → get_sticky r.health session now ≡ some provider
        → runtime r provider ≡ o
        → Offers sticky_affinity model session now
            (first_pinned w env r sticky_affinity model
              (pinned_candidate w env r model provider o)).1
    runtime-Offers provider none e f = in_order sticky_affinity (λ p q (_, e', f', g'). cc)
    runtime-Offers provider (some rt) e f =
        gated-Offers provider rt (candidate_ok env r rt) e f refl

    sticky-Offers :
        (o : Option String)
        → get_sticky r.health session now ≡ o
        → Offers sticky_affinity model session now
            (first_pinned w env r sticky_affinity model (pinned w env r sticky_affinity model o)).1
    sticky-Offers none e = in_order sticky_affinity (λ p q (_, e', f', g'). cc)
    sticky-Offers (some provider) e = runtime-Offers provider (runtime r provider) e refl

    strategy-Offers :
        (strategy : Strategy)
        → Offers strategy model session now
            (first_pinned w env r strategy model
              (pinned w env r strategy model (get_sticky r.health session now))).1
    strategy-Offers sticky_affinity = sticky-Offers (get_sticky r.health session now) refl
    strategy-Offers strategy = not_sticky _ (λ e. cc)

    -- Under the strategy in force (the literal model "free" forces the free one), a session whose
    -- live pin names a provider with a runtime that passes the gates is offered that provider
    -- alone. Any other request is offered each provider of the configured order that is usable,
    -- healthy, not open and in scope (and free, under the free strategy) exactly as often as the
    -- order lists it, and no other, while the rotation's counter stays clear of the end of its range.
    pub select-Offers :
        (override : Option Strategy)
        → Offers
            (effective_strategy r.routing.strategy override model)
            model
            session
            now
            (select w env r model session override now).1
    unfolding select
    select-Offers override = strategy-Offers (effective_strategy r.routing.strategy override model)
