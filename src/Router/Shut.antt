-- ===== src/Router/Shut.antt =====
-- The lemmas on a provider that proxy/src/router.rs has marked unhealthy after a failed attempt.
use mathlib.Core.HLevel.{¬_prop}
use flock.Base.{
  ℕ, ◌+◌, ◌≤◌, ◌<◌, ◌^◌, ◌≡◌, ◌≢◌, refl, sym, ap, ◌∙◌, subst, Bool, true, false, ◌&&◌, Option, none,
  some, List, [], ◌∷◌, ◌++◌, String, String-discrete, if◌then◌else◌, length, usize, get_elem?, find,
  insert, keep, map, u64, arith, find-insert_self, All, Option-cases, inl, inr, All-Perm,
  get_elem?_total, last_instant,
}
use flock.Health.{Host, PersistOp, is_healthy, record_health, lookup, put, or_else}
use flock.Pool.{Pool, penalize}
use flock.Router.{Strategy, ProviderRuntime, RouterInner, RouteCandidate, runtime, candidate_ok}
use flock.Router.Order.{Weights}
use flock.Router.Select.{candidate_of, found_all, select}
use flock.Router.Offers.{Offers, only_pinned, all_offered, offered, select-Offers}
use flock.Router.Finish.{
  Acquired, is_provider_failure, cooldown_for, mark_failure, apply_cooldown, drain_model, failed,
  exhausted_runtime,
}

-- every runtime stands under its provider's name
abbrev pub Named : String × ProviderRuntime → Type 0
Named (name, rt) = rt.def.name ≡ name

lookup-Named :
    (m : List (String × ProviderRuntime)) (p : String) (rt : ProviderRuntime)
    → All Named m
    → lookup p m ≡ some rt
    → rt.def.name ≡ p
unfolding find
lookup-Named [] p rt a e = absurd (ground (arith, e))
lookup-Named ((q, rt') ∷ m) p rt (n, a) e = ground (arith, lookup-Named m p rt a)

put-Named :
    (m : List (String × ProviderRuntime)) (p : String) (rt : ProviderRuntime)
    → rt.def.name ≡ p
    → All Named m
    → All Named (put p rt m)
unfolding insert
put-Named [] p rt e a = (e, tt)
put-Named ((q, rt') ∷ m) p rt e (n, a) = ground (arith, put-Named m p rt e a)

abbrev pub Not : String → RouteCandidate → Type 0
Not p c = c.provider ≢ p

first_of : (a b c : Bool) → (a && b && c) ≡ true → a ≡ true
first_of true b c e = refl
first_of false b c e = e

module _ {host : Host} (w : Weights host) (env : String → Option String) (r : RouterInner host)
    (p : String) (sick : is_healthy r.health p ≡ false) where
  ok-ne : (rt : ProviderRuntime) → candidate_ok env r rt ≡ true → rt.def.name ≢ p
  unfolding candidate_ok
  ok-ne rt ok e = let h = ap (is_healthy r.health) e in ground (arith, h)

  offered-Not :
      (strategy : Strategy) (model : String) (rts : List ProviderRuntime)
      → All (Not p) (map (candidate_of strategy model) (keep (offered w env r strategy model) rts))
  unfolding candidate_of
  offered-Not strategy model [] = tt
  offered-Not strategy model (rt ∷ rts) =
      kept (offered w env r strategy model rt) refl (offered-Not strategy model rts)
    where
      kept :
          (b : Bool)
          → offered w env r strategy model rt ≡ b
          → All
              (Not p)
              (map (candidate_of strategy model) (keep (offered w env r strategy model) rts))
          → All (Not p) (
              map (candidate_of strategy model) (
                if b
                then rt ∷ keep (offered w env r strategy model) rts
                else keep (offered w env r strategy model) rts))
      kept true e rest = (ok-ne rt (first_of (candidate_ok env r rt) _ _ e), rest)
      kept false e rest = rest

  module _ (names : All Named r.runtimes) where
    Offers-Not :
        (strategy : Strategy) (model session : String) (now : ℕ) (cs : List RouteCandidate)
        → Offers w env r strategy model session now cs
        → All (Not p) cs
    unfolding runtime
    Offers-Not strategy model session now _ (only_pinned provider rt (_, _, found, ok)) =
        ((λ e. ok-ne rt ok (lookup-Named r.runtimes provider rt names found ∙ e)), tt)
    Offers-Not strategy model session now cs (all_offered _ _ perm) =
        All-Perm (Not p) (λ c. ¬_prop) perm (offered-Not strategy model (found_all r r.order))

    pub unhealthy-Not :
        (model session : String) (override : Option Strategy) (now : ℕ)
        → usize r.rounds + length r.order ≤ 2 ^ 64
        → All (Not p) (select w env r model session override now).1
    unhealthy-Not model session override now fits =
        Offers-Not _ model session now _ (select-Offers w env r model session now fits override)

-- a cooldown that starts at `now`, if one does, ends at an instant there is
abbrev pub EndsInTime : ℕ → Option ℕ → Type 0
EndsInTime now none = Unit
EndsInTime now (some backoff) = now + backoff ≤ last_instant

module _ {host : Host} where
  -- what selection reads of a router, but for the runtimes
  abbrev SameRest : RouterInner host → RouterInner host → Type 0
  SameRest r r' =
      (r'.health ≡ r.health)
      × (r'.runtimes ≡ r.runtimes)
      × (r'.order ≡ r.order)
      × (r'.rounds ≡ r.rounds)

  cooled-SameRest :
      (r r' : RouterInner host) (acq : Acquired) (backoff : Option ℕ) (now_unix now : ℕ)
      (ops : List (PersistOp host))
      → apply_cooldown r acq backoff now_unix now ≡ some (r', ops)
      → SameRest r r'
  unfolding apply_cooldown
  cooled-SameRest r r' acq none now_unix now ops e = ground arith
  cooled-SameRest r r' acq (some backoff) now_unix now ops e =
      elim (Option-cases (get_elem? r.pools acq.slot.pool)) [
        | inl k ↦ absurd (ground (arith, e, k))
        | inr (pool, k) ↦ elim (Option-cases (penalize pool acq.slot.lane backoff now)) [
          | inl n ↦ absurd (ground (arith, e, k, n))
          | inr (pool', n) ↦ ground (arith, e, k, n)
        ]
      ]

  -- what an outcome leaves for the next selection
  pub record Shut (p : String) (r r' : RouterInner host) : Type 0 where
    pub sick : is_healthy r'.health p ≡ false
    pub names : All Named r'.runtimes
    pub same_order : r'.order ≡ r.order
    pub same_rounds : r'.rounds ≡ r.rounds

  cooldown_total :
      (r : RouterInner host) (acq : Acquired) (backoff : Option ℕ) (now_unix now : ℕ) (pool : Pool)
      → get_elem? r.pools acq.slot.pool ≡ some pool
      → acq.slot.lane < length pool.lanes
      → EndsInTime now backoff
      → (res : RouterInner host × List (PersistOp host)) × (apply_cooldown r acq backoff now_unix
            now
          ≡ some res)
  unfolding apply_cooldown penalize
  cooldown_total r acq none now_unix now pool k h fits = ((r, []), refl)
  cooldown_total r acq (some backoff) now_unix now pool k h fits =
      let (l, e) = get_elem?_total pool.lanes acq.slot.lane h in
      elim (Option-cases (apply_cooldown r acq (some backoff) now_unix now)) [
        | inl n ↦ absurd (ground (arith, n, k, e, fits))
        | inr found ↦ found
      ]

  marked-Shut :
      (r : RouterInner host) (p : String) (rt : ProviderRuntime) (now_unix now : ℕ)
      → rt.def.name ≡ p
      → All Named r.runtimes
      → Shut p r (mark_failure true r p rt now_unix now).0
  unfolding mark_failure record_health is_healthy
  marked-Shut r p rt now_unix now e names = record {
    sick = ap (λ o. or_else o true) (find-insert_self String-discrete p false r.health.healthy);
    names = put-Named r.runtimes p _ e names;
    same_order = refl;
    same_rounds = refl;
  }

  rest-Shut : (p : String) (r r1 r2 : RouterInner host) → Shut p r r1 → SameRest r1 r2 → Shut p r r2
  rest-Shut p r r1 r2 s (h, n, o, c) = record {
    sick = ap (λ x. is_healthy x p) h ∙ s.sick;
    names = subst (All Named) (sym n) s.names;
    same_order = o ∙ s.same_order;
    same_rounds = c ∙ s.same_rounds;
  }

  drained-Shut :
      (p model : String) (r r2 : RouterInner host) (b : Bool) (now : ℕ)
      → Shut p r r2
      → Shut p r (drain_model b r2 p model now)
  unfolding drain_model runtime
  drained-Shut p model r r2 false now s = s
  drained-Shut p model r r2 true now s = drained (runtime r2 p) refl
    where
      drained :
          (o : Option ProviderRuntime)
          → runtime r2 p ≡ o
          → Shut p r (exhausted_runtime r2 p model now o)
      drained none e = s
      drained (some rt) e = record {
        sick = s.sick;
        names = put-Named r2.runtimes p _ (lookup-Named r2.runtimes p rt s.names e) s.names;
        same_order = s.same_order;
        same_rounds = s.same_rounds;
      }

  pub failed-Shut :
      (r : RouterInner host) (acq : Acquired) (rt : ProviderRuntime) (status : ℕ) (exhausted : Bool)
      (retry_after : Option ℕ) (now_unix now : ℕ) (pool : Pool)
      → is_provider_failure status ≡ true
      → rt.def.name ≡ acq.provider
      → All Named r.runtimes
      → get_elem? r.pools acq.slot.pool ≡ some pool
      → acq.slot.lane < length pool.lanes
      → EndsInTime now (cooldown_for status exhausted retry_after)
      → (res : RouterInner host × List (PersistOp host)) × (failed r acq rt status exhausted
            retry_after now_unix now
          ≡ some res)
        × Shut acq.provider r res.0
  unfolding failed
  failed-Shut r acq rt status exhausted retry_after now_unix now pool f e names k h fits =
      let rt' : ProviderRuntime = record rt { errors = u64 (rt.errors + 1) } in
      let (r1, ops1) = mark_failure true r acq.provider rt' now_unix now in
      let (res, c) =
        cooldown_total r1 acq (cooldown_for status exhausted retry_after) now_unix now pool k h
          fits in
      (
        (drain_model exhausted res.0 acq.provider acq.model now, ops1 ++ res.1),
        rw (f, c) refl,
        drained-Shut acq.provider acq.model r res.0 exhausted now (
            rest-Shut acq.provider r r1 res.0 (marked-Shut r acq.provider rt' now_unix now e names)
              (cooled-SameRest r1 res.0 acq _ now_unix now res.1 c)),
      )
