-- ===== src/Router/Select.antt =====
-- `select` of proxy/src/router.rs: the providers that a request is offered, in the strategy's order.
use flock.Base.{
  ℕ, suc, Bool, true, false, ◌||◌, Option, none, some, List, [], ◌∷◌, String, String-discrete, ite,
  if◌then◌else◌, keep, map, usize,
}
use flock.Health.{Host, get_sticky, lookup, or_else}
use flock.Providers.{ProviderDef, serves_model, map_model}
use flock.Router.{
  Strategy, hybrid, ast_race, sticky_affinity, weighted_elo, least_latency, round_robin, free,
  circuit_chain, ProviderRuntime, RouterInner, RouteCandidate, runtime, candidate_ok,
}
use flock.Router.Order.{Weights, order_hybrid, order_elo, order_latency, order_round_robin}

-- the literal routing directive
unfoldable pub is_free_directive : String → Bool
is_free_directive model = ite (String-discrete model "free") true false

unfoldable pub effective_strategy : Strategy → Option Strategy → String → Strategy
unfolding is_free_directive
effective_strategy configured override model =
    if is_free_directive model then free else or_else override configured

abbrev first_or : List String → String → String
first_or [] d = d
first_or (m ∷ ms) d = m

abbrev free_model : Option String → ProviderDef → String → String
free_model none d model = first_or d.models model
free_model (some m) d model = m

-- the upstream model of a candidate
unfoldable pub upstream_model : ProviderDef → String → String
unfolding is_free_directive map_model
upstream_model d model =
    if is_free_directive model
    then free_model (lookup "free" d.model_map) d model
    else map_model d model

unfoldable pub candidate_of : Strategy → String → ProviderRuntime → RouteCandidate
unfolding upstream_model
candidate_of strategy model rt = record {
  provider = rt.def.name;
  model = upstream_model rt.def model;
  strategy = strategy;
}

-- `filter_map` by a partial function
unfoldable pub found_all : {host : Host} → RouterInner host → List String → List ProviderRuntime
unfolding runtime
found_all r [] = []
found_all r (n ∷ names) = elim (runtime r n) [
  | none ↦ found_all r names
  | some rt ↦ rt ∷ found_all r names
]

module _ {host : Host} (w : Weights host) (env : String → Option String) where
  -- the providers that pass the gates and the scope of the model
  unfoldable pub in_scope : RouterInner host → String → List ProviderRuntime
  unfolding found_all candidate_ok is_free_directive
  in_scope r model =
      keep (λ rt. is_free_directive model || serves_model rt.def model)
        (keep (candidate_ok env r) (found_all r r.order))

  unfoldable pub ordered : RouterInner host → Strategy → List ProviderRuntime → List ProviderRuntime
  unfolding order_hybrid order_elo order_latency order_round_robin
  ordered r hybrid rts = order_hybrid w r.health rts
  ordered r ast_race rts = rts
  ordered r sticky_affinity rts = order_hybrid w r.health rts
  ordered r weighted_elo rts = order_elo w r.health rts
  ordered r least_latency rts = order_latency w r.health rts
  ordered r round_robin rts = order_round_robin (usize r.rounds) rts
  ordered r free rts = keep (λ rt. rt.def.free_tier) rts
  ordered r circuit_chain rts = order_hybrid w r.health rts

  -- the counter that a round-robin order moves on
  abbrev next_rounds : Strategy → List ProviderRuntime → ℕ → ℕ
  next_rounds round_robin (rt ∷ rts) n = suc n
  next_rounds _ rts n = n

  unfoldable pub select_in_order :
      RouterInner host → Strategy → String → RouterInner host × List RouteCandidate
  unfolding ordered in_scope candidate_of
  select_in_order r strategy model =
      let rts = in_scope r model in
      (
        record r { rounds = next_rounds strategy rts r.rounds },
        map (candidate_of strategy model) (ordered r strategy rts),
      )

  abbrev pub gated_pin : Bool → String → String → ProviderRuntime → Option RouteCandidate
  gated_pin true provider model rt =
      some
        (record { provider = provider; model = map_model rt.def model; strategy = sticky_affinity })
  gated_pin false provider model rt = none

  -- the candidate of a pinned provider, if it has a runtime that passes the gates
  abbrev pub pinned_candidate :
      RouterInner host → String → String → Option ProviderRuntime → Option RouteCandidate
  pinned_candidate r model provider none = none
  pinned_candidate r model provider (some rt) = gated_pin (candidate_ok env r rt) provider model rt

  abbrev pub pinned : RouterInner host → Strategy → String → Option String → Option RouteCandidate
  pinned r sticky_affinity model (some provider) =
      pinned_candidate r model provider (runtime r provider)
  pinned r _ model _ = none

  abbrev pub first_pinned :
      RouterInner host
      → Strategy
      → String
      → Option RouteCandidate
      → RouterInner host × List RouteCandidate
  first_pinned r strategy model none = select_in_order r strategy model
  first_pinned r strategy model (some c) = (r, c ∷ [])

  unfoldable pub select :
      RouterInner host
      → String
      → String
      → Option Strategy
      → ℕ
      → RouterInner host × List RouteCandidate
  unfolding effective_strategy select_in_order get_sticky candidate_ok runtime
  select r model session override now_unix =
      let strategy = effective_strategy r.routing.strategy override model in
      first_pinned r strategy model (pinned r strategy model (get_sticky r.health session now_unix))
