-- ===== src/Router/Removed.antt =====
-- A settings swap of proxy/src/router.rs and the providers that it removes or disables.
use mathlib.Core.HLevel.{¬_prop}
use flock.Base.{
  ℕ, suc, ◌+◌, ◌≤◌, ◌^◌, ◌≡◌, ◌≢◌, refl, sym, ap, ◌∙◌, subst, ◌⊎◌, inl, inr, Bool, true, false,
  Option, none, some, List, [], ◌∷◌, String, if◌then◌else◌, length, usize, find, insert, keep, map,
  arith, All, All-Perm, Bool-cases,
}
use flock.Health.{Host, lookup, put}
use flock.Pool
use flock.Providers.{ProviderDef}
use flock.Router.{Strategy, ProviderRuntime, RouterInner, RouteCandidate, runtime}
use flock.Router.Order.{Weights}
use flock.Router.Select.{candidate_of, found_all, select}
use flock.Router.Offers.{Offers, only_pinned, all_offered, select-Offers}
use flock.Router.Shut.{Named, Not}
use flock.Router.Lifecycle.{
  StoredConfig, enabled_providers, keeps, retained, reconfigure_pool, apply_def, apply_defs,
  fresh_runtime, rebuild,
}

-- the store does not enable a provider of the name
abbrev pub Unlisted : String → List ProviderDef → Type 0
Unlisted p ds = All (λ d. (d.enabled ≡ false) ⊎ (d.name ≢ p)) ds

-- a runtime of another provider, under its name
abbrev pub Elsewhere : String → String × ProviderRuntime → Type 0
Elsewhere p (name, rt) = (rt.def.name ≡ name) × (name ≢ p)

module _ (p : String) where
  keeps-Unlisted : (ds : List ProviderDef) → Unlisted p ds → keeps ds p ≡ false
  unfolding keeps
  keeps-Unlisted [] u = refl
  keeps-Unlisted (d ∷ ds) (h, u) = ground (arith, h, keeps-Unlisted ds u)

  kept-ne :
      (ds : List ProviderDef) (name : String) → Unlisted p ds → keeps ds name ≡ true → name ≢ p
  kept-ne ds name u k e = ground (arith, keeps-Unlisted ds u, subst (λ x. keeps ds x ≡ true) e k)

  retained-Elsewhere :
      (ds : List ProviderDef) (m : List (String × ProviderRuntime))
      → Unlisted p ds
      → All Named m
      → All (Elsewhere p) (keep (λ e. keeps ds e.0) m)
  retained-Elsewhere ds [] u a = tt
  retained-Elsewhere ds ((name, rt) ∷ m) u (n, a) =
      one (keeps ds name) refl (retained-Elsewhere ds m u a)
    where
      one :
          (b : Bool)
          → keeps ds name ≡ b
          → All (Elsewhere p) (keep (λ e. keeps ds e.0) m)
          → All
              (Elsewhere p)
              (if b then (name, rt) ∷ keep (λ e. keeps ds e.0) m else keep (λ e. keeps ds e.0) m)
      one true k rest = ((n, kept-ne ds name u k), rest)
      one false k rest = rest

  enabled-ne :
      (ds : List ProviderDef) → Unlisted p ds → All (λ d. d.name ≢ p) (keep (λ d. d.enabled) ds)
  enabled-ne [] u = tt
  enabled-ne (d ∷ ds) (h, u) = elim (Bool-cases d.enabled) [
    | inl t ↦ rw t (other h t, enabled-ne ds u)
    | inr f ↦ rw f (enabled-ne ds u)
  ]
    where
      other : (d.enabled ≡ false) ⊎ (d.name ≢ p) → d.enabled ≡ true → d.name ≢ p
      other (inl f) t = absurd (ground (arith, f, t))
      other (inr n) t = n

  put-Elsewhere :
      (m : List (String × ProviderRuntime)) (name : String) (rt : ProviderRuntime)
      → rt.def.name ≡ name
      → name ≢ p
      → All (Elsewhere p) m
      → All (Elsewhere p) (put name rt m)
  unfolding insert
  put-Elsewhere [] name rt e n a = ((e, n), tt)
  put-Elsewhere ((q, rt') ∷ m) name rt e n ((e', n'), a) =
      ground (arith, put-Elsewhere m name rt e n a)

  lookup-Elsewhere :
      (m : List (String × ProviderRuntime)) (name : String) (rt : ProviderRuntime)
      → All (Elsewhere p) m
      → lookup name m ≡ some rt
      → (rt.def.name ≡ name) × (name ≢ p)
  unfolding find
  lookup-Elsewhere [] name rt a e = absurd (ground (arith, e))
  lookup-Elsewhere ((q, rt') ∷ m) name rt ((n, h), a) e =
      ground (arith, lookup-Elsewhere m name rt a)

length-map : {A B : Type 0} (f : A → B) (xs : List A) → length (map f xs) ≡ length xs
length-map f [] = refl
length-map f (x ∷ xs) = ap suc (length-map f xs)

module _ {host : Host} (p : String) (env : String → Option String) (now : ℕ) where
  reconfigured-Elsewhere :
      (r : RouterInner host) (d : ProviderDef) (rt : ProviderRuntime) (o : Option Pool.Pool)
      → d.name ≢ p
      → All (Elsewhere p) r.runtimes
      → All (Elsewhere p) (reconfigure_pool env r d rt o now).runtimes
  unfolding reconfigure_pool
  reconfigured-Elsewhere r d rt none n a = a
  reconfigured-Elsewhere r d rt (some q) n a = put-Elsewhere p r.runtimes d.name _ refl n a

  applied-Elsewhere :
      (r : RouterInner host) (d : ProviderDef) (o : Option ProviderRuntime)
      → d.name ≢ p
      → All (Elsewhere p) r.runtimes
      → All (Elsewhere p) (apply_def env r d o now).runtimes
  unfolding apply_def fresh_runtime
  applied-Elsewhere r d none n a = put-Elsewhere p r.runtimes d.name _ refl n a
  applied-Elsewhere r d (some rt) n a = reconfigured-Elsewhere r d rt _ n a

  all_applied-Elsewhere :
      (r : RouterInner host) (ds : List ProviderDef)
      → All (λ d. d.name ≢ p) ds
      → All (Elsewhere p) r.runtimes
      → All (Elsewhere p) (apply_defs env r ds now).runtimes
  unfolding apply_defs
  all_applied-Elsewhere r [] n a = a
  all_applied-Elsewhere r (d ∷ ds) (n, ns) a =
      all_applied-Elsewhere (apply_def env r d (lookup d.name r.runtimes) now) ds ns
        (applied-Elsewhere r d _ n a)

  rebuild-Elsewhere :
      (r : RouterInner host) (stored : StoredConfig)
      → Unlisted p stored.providers
      → All Named r.runtimes
      → All (Elsewhere p) (rebuild env r stored now).runtimes
  unfolding rebuild
  rebuild-Elsewhere r stored u a =
      all_applied-Elsewhere (retained r stored) (enabled_providers stored)
        (enabled-ne p stored.providers u) (retained-Elsewhere p stored.providers r.runtimes u a)

module _ {host : Host} (env : String → Option String) (now : ℕ) where
  reconfigured-rounds :
      (r : RouterInner host) (d : ProviderDef) (rt : ProviderRuntime) (o : Option Pool.Pool)
      → (reconfigure_pool env r d rt o now).rounds ≡ r.rounds
  unfolding reconfigure_pool
  reconfigured-rounds r d rt none = refl
  reconfigured-rounds r d rt (some q) = refl

  applied-rounds :
      (r : RouterInner host) (d : ProviderDef) (o : Option ProviderRuntime)
      → (apply_def env r d o now).rounds ≡ r.rounds
  unfolding apply_def
  applied-rounds r d none = refl
  applied-rounds r d (some rt) = reconfigured-rounds r d rt _

  all_applied-rounds :
      (r : RouterInner host) (ds : List ProviderDef) → (apply_defs env r ds now).rounds ≡ r.rounds
  unfolding apply_defs
  all_applied-rounds r [] = refl
  all_applied-rounds r (d ∷ ds) =
      all_applied-rounds (apply_def env r d (lookup d.name r.runtimes) now) ds
      ∙ applied-rounds r d _

  rebuild_fits :
      (r : RouterInner host) (stored : StoredConfig)
      → usize r.rounds + length (enabled_providers stored) ≤ 2 ^ 64
      → usize (rebuild env r stored now).rounds + length (rebuild env r stored now).order ≤ 2 ^ 64
  unfolding rebuild
  rebuild_fits r stored fits =
      rw
        (
          all_applied-rounds (retained r stored) (enabled_providers stored),
          length-map (λ (d : ProviderDef). d.name) (enabled_providers stored),
        )
        fits

module _ {host : Host} (w : Weights host) (env : String → Option String) (p : String)
    (r : RouterInner host) (away : All (Elsewhere p) r.runtimes) where
  found-Not : (names : List String) → All (λ rt. rt.def.name ≢ p) (found_all r names)
  unfolding found_all runtime
  found-Not [] = tt
  found-Not (name ∷ names) = found (lookup name r.runtimes) refl (found-Not names)
    where
      found :
          (o : Option ProviderRuntime)
          → lookup name r.runtimes ≡ o
          → All (λ rt. rt.def.name ≢ p) (found_all r names)
          → All {A = ProviderRuntime}
              (λ rt. rt.def.name ≢ p)
              (elim o [ none ↦ found_all r names | some rt ↦ rt ∷ found_all r names ])
      found none e rest = rest
      found (some rt) e rest =
          let (n, h) = lookup-Elsewhere p r.runtimes name rt away e in ((λ x. h (sym n ∙ x)), rest)

  candidates-Not :
      (strategy : Strategy) (model : String) (q : ProviderRuntime → Bool)
      (rts : List ProviderRuntime)
      → All (λ rt. rt.def.name ≢ p) rts
      → All (Not p) (map (candidate_of strategy model) (keep q rts))
  unfolding candidate_of
  candidates-Not strategy model q [] a = tt
  candidates-Not strategy model q (rt ∷ rts) (n, a) = elim (Bool-cases (q rt)) [
    | inl t ↦ rw t (n, candidates-Not strategy model q rts a)
    | inr f ↦ rw f (candidates-Not strategy model q rts a)
  ]

  away-Not :
      (strategy : Strategy) (model session : String) (t : ℕ) (cs : List RouteCandidate)
      → Offers w env r strategy model session t cs
      → All (Not p) cs
  unfolding runtime
  away-Not strategy model session t _ (only_pinned provider rt (_, _, found, ok)) =
      ((lookup-Elsewhere p r.runtimes provider rt away found).1, tt)
  away-Not strategy model session t cs (all_offered _ _ perm) =
      All-Perm (Not p) (λ c. ¬_prop) perm
        (candidates-Not strategy model _ (found_all r r.order) (found-Not r.order))

-- After a settings swap of a router whose runtimes stand under their providers' names, no selection
-- offers a provider that the new settings do not enable, for any model, session, strategy and time,
-- whatever pins there are, while the rotation's counter stays clear of the end of its range.
pub rebuild-select :
    {host : Host} (w : Weights host) (env : String → Option String) (now : ℕ) (r : RouterInner host)
    (stored : StoredConfig) (p model session : String) (override : Option Strategy) (t : ℕ)
    → All Named r.runtimes
    → Unlisted p stored.providers
    → usize r.rounds + length (enabled_providers stored) ≤ 2 ^ 64
    → All (Not p) (select w env (rebuild env r stored now) model session override t).1
rebuild-select w env now r stored p model session override t names u fits =
    let r' = rebuild env r stored now in
    away-Not w env p r' (rebuild-Elsewhere p env now r stored u names) _ model session t _
      (select-Offers w env r' model session t (rebuild_fits env now r stored fits) override)
