-- ===== src/Router/Swapped.antt =====
-- A settings swap of proxy/src/router.rs and the runtimes of the providers.
use flock.Base.{
  ℕ, suc, zero, ◌≡◌, ◌≢◌, ◌<◌, refl, ◌∙◌, sym, subst, Bool, true, Option, none, some, List, [], ◌∷◌,
  ◌++◌, String, String-discrete, length, get_elem?, get_elem?_total, keep, All, find,
  find-insert_self, find-insert_ne, In, In-if_elim, inl, inr, ap, arith,
}
use flock.Health.{Host, lookup}
use flock.Pool
use flock.Providers.{ProviderDef, lane_specs}
use flock.Router.{ProviderRuntime, RouterInner}
use flock.Router.Lifecycle.{
  StoredConfig, retained, fresh_runtime, enabled_providers, keeps, reconfigure_pool, apply_def,
  apply_defs, rebuild,
}

get_elem?-append :
    {A : Type 0} (xs ys : List A) (i : ℕ) (x : A)
    → get_elem? xs i ≡ some x
    → get_elem? (xs ++ ys) i ≡ some x
get_elem?-append [] ys i x h = absurd (ground (arith, h))
get_elem?-append (y ∷ xs) ys zero x h = h
get_elem?-append (y ∷ xs) ys (suc i) x h = get_elem?-append xs ys i x h

get_elem?-last : {A : Type 0} (xs : List A) (y : A) → get_elem? (xs ++ y ∷ []) (length xs) ≡ some y
get_elem?-last [] y = refl
get_elem?-last (x ∷ xs) y = get_elem?-last xs y

find-keep_key :
    {V : Type 0} (p : String → Bool) (k : String) (m : List (String × V))
    → p k ≡ true
    → lookup k (keep (λ e. p e.0) m) ≡ lookup k m
unfolding find
find-keep_key p k [] h = refl
find-keep_key p k ((j, v) ∷ m) h = ground (arith, find-keep_key p k m h, ap p)

keeps_enabled :
    (ds : List ProviderDef) (d : ProviderDef)
    → In d (keep (λ d. d.enabled) ds)
    → keeps ds d.name ≡ true
unfolding keeps
keeps_enabled [] d h = absurd h
keeps_enabled (e ∷ ds) d h = ground (
  arith,
  In-if_elim d e e.enabled (keep (λ d. d.enabled) ds) h,
  keeps_enabled ds d,
  ap (λ (x : ProviderDef). x.name),
)

-- the provider has another name
abbrev pub Other : String → ProviderDef → Type 0
Other name d = d.name ≢ name

-- the runtime that a swap makes of the one there was
abbrev pub carried : ProviderDef → ℕ → Option ProviderRuntime → ProviderRuntime
carried d i none = fresh_runtime d i
carried d i (some rt) = record rt { def = d; pool = i }

abbrev pub pool_of : {host : Host} → RouterInner host → Option ProviderRuntime → Option Pool.Pool
pool_of r none = none
pool_of r (some rt) = get_elem? r.pools rt.pool

-- the pool that the runtime has
abbrev Has : {host : Host} → RouterInner host → Option ProviderRuntime → Option Pool.Pool → Type 0
Has r none q = q ≡ none
Has r (some rt) q = (p : Pool.Pool) × ((get_elem? r.pools rt.pool ≡ some p) × (q ≡ some p))

-- the pool of the runtime, if there is one, exists
abbrev pub Pooled : {host : Host} → RouterInner host → Option ProviderRuntime → Type 0
Pooled r none = Unit
Pooled r (some rt) = rt.pool < length r.pools

Pooled-Has :
    {host : Host} (r : RouterInner host) (o : Option ProviderRuntime)
    → Pooled r o
    → Has r o (pool_of r o)
Pooled-Has r none h = refl
Pooled-Has r (some rt) h = let (p, e) = get_elem?_total r.pools rt.pool h in (p, (e, e))

In-append_middle : {A : Type 0} (xs ys : List A) (x : A) → In x (xs ++ x ∷ ys)
In-append_middle [] ys x = inl refl
In-append_middle (y ∷ xs) ys x = inr (In-append_middle xs ys x)

-- the pool that a swap makes of the one there was
abbrev pub carried_pool : (String → Option String) → ℕ → ProviderDef → Option Pool.Pool → Pool.Pool
carried_pool env now d none = Pool.new (lane_specs env d) now
carried_pool env now d (some p) = Pool.rebuild p (lane_specs env d) now

module _ {host : Host} (env : String → Option String) (now : ℕ) where
  reconfigure_pool-pools :
      (r : RouterInner host) (d : ProviderDef) (rt : ProviderRuntime) (i : ℕ) (p : Pool.Pool)
      → get_elem? r.pools i ≡ some p
      → (o : Option Pool.Pool) → get_elem? (reconfigure_pool env r d rt o now).pools i ≡ some p
  unfolding reconfigure_pool
  reconfigure_pool-pools r d rt i p h none = h
  reconfigure_pool-pools r d rt i p h (some q) = get_elem?-append r.pools _ i p h

  apply_def-pools :
      (r : RouterInner host) (d : ProviderDef) (i : ℕ) (p : Pool.Pool)
      → get_elem? r.pools i ≡ some p
      → (o : Option ProviderRuntime) → get_elem? (apply_def env r d o now).pools i ≡ some p
  unfolding apply_def reconfigure_pool
  apply_def-pools r d i p h none = get_elem?-append r.pools _ i p h
  apply_def-pools r d i p h (some rt) = reconfigure_pool-pools r d rt i p h _

  reconfigure_pool-Other :
      (r : RouterInner host) (d : ProviderDef) (rt : ProviderRuntime) (name : String)
      → d.name ≢ name
      → (o : Option Pool.Pool)
      → lookup name (reconfigure_pool env r d rt o now).runtimes ≡ lookup name r.runtimes
  unfolding reconfigure_pool
  reconfigure_pool-Other r d rt name h none = refl
  reconfigure_pool-Other r d rt name h (some q) =
      find-insert_ne String-discrete d.name name _ r.runtimes h

  apply_def-Other :
      (r : RouterInner host) (d : ProviderDef) (name : String)
      → d.name ≢ name
      → (o : Option ProviderRuntime)
      → lookup name (apply_def env r d o now).runtimes ≡ lookup name r.runtimes
  unfolding apply_def
  apply_def-Other r d name h none = find-insert_ne String-discrete d.name name _ r.runtimes h
  apply_def-Other r d name h (some rt) = reconfigure_pool-Other r d rt name h _

  apply_defs-pools :
      (r : RouterInner host) (ds : List ProviderDef) (i : ℕ) (p : Pool.Pool)
      → get_elem? r.pools i ≡ some p
      → get_elem? (apply_defs env r ds now).pools i ≡ some p
  unfolding apply_defs
  apply_defs-pools r [] i p h = h
  apply_defs-pools r (d ∷ ds) i p h =
      apply_defs-pools (apply_def env r d (lookup d.name r.runtimes) now) ds i p
        (apply_def-pools r d i p h _)

  apply_defs-Other :
      (r : RouterInner host) (ds : List ProviderDef) (name : String)
      → All (Other name) ds
      → lookup name (apply_defs env r ds now).runtimes ≡ lookup name r.runtimes
  unfolding apply_defs
  apply_defs-Other r [] name h = refl
  apply_defs-Other r (d ∷ ds) name (ne, h) =
      apply_defs-Other (apply_def env r d (lookup d.name r.runtimes) now) ds name h
      ∙ apply_def-Other r d name ne _

  -- `r'` has the provider with the runtime and the pool made of those given
  abbrev pub Swapped :
      RouterInner host → ProviderDef → Option ProviderRuntime → Option Pool.Pool → Type 0
  Swapped r' d o q =
      (i : ℕ) × ((lookup d.name r'.runtimes ≡ some (carried d i o))
        × (get_elem? r'.pools i ≡ some (carried_pool env now d q)))

  reconfigure_pool-Swapped :
      (r : RouterInner host) (d : ProviderDef) (rt : ProviderRuntime) (q o : Option Pool.Pool)
      (p : Pool.Pool)
      → o ≡ some p
      → q ≡ some p
      → Swapped (reconfigure_pool env r d rt o now) d (some rt) q
  unfolding reconfigure_pool
  reconfigure_pool-Swapped r d rt q none p e f = absurd (ground (arith, e))
  reconfigure_pool-Swapped r d rt q (some x) p e f = (
    length r.pools,
    (
      find-insert_self String-discrete d.name _ r.runtimes,
      get_elem?-last r.pools _ ∙ ap (λ y. some (carried_pool env now d y)) (e ∙ sym f),
    ),
  )

  apply_def-Swapped :
      (r : RouterInner host) (d : ProviderDef) (o : Option ProviderRuntime) (q : Option Pool.Pool)
      → Has r o q
      → Swapped (apply_def env r d o now) d o q
  unfolding apply_def
  apply_def-Swapped r d none q h = (
    length r.pools,
    (
      find-insert_self String-discrete d.name _ r.runtimes,
      get_elem?-last r.pools _ ∙ ap (λ y. some (carried_pool env now d y)) (sym h),
    ),
  )
  apply_def-Swapped r d (some rt) q (p, (e, f)) =
      reconfigure_pool-Swapped r d rt q (get_elem? r.pools rt.pool) p e f

  apply_def-Has :
      (r : RouterInner host) (b : ProviderDef) (x : Option ProviderRuntime)
      (o : Option ProviderRuntime) (q : Option Pool.Pool)
      → Has r o q
      → Has (apply_def env r b x now) o q
  apply_def-Has r b x none q h = h
  apply_def-Has r b x (some rt) q (p, (e, f)) = (p, (apply_def-pools r b rt.pool p e x, f))

  -- later providers leave it so
  apply_defs-Swapped :
      (r : RouterInner host) (ds : List ProviderDef) (d : ProviderDef) (o : Option ProviderRuntime)
      (q : Option Pool.Pool)
      → All (Other d.name) ds
      → Swapped r d o q
      → Swapped (apply_defs env r ds now) d o q
  apply_defs-Swapped r ds d o q others (i, (e, f)) =
      (i, (apply_defs-Other r ds d.name others ∙ e, apply_defs-pools r ds i _ f))

  apply_defs_middle :
      (r : RouterInner host) (before after : List ProviderDef) (d : ProviderDef)
      (o : Option ProviderRuntime) (q : Option Pool.Pool)
      → lookup d.name r.runtimes ≡ o
      → Has r o q
      → All (Other d.name) before
      → All (Other d.name) after
      → Swapped (apply_defs env r (before ++ d ∷ after) now) d o q
  unfolding apply_defs
  apply_defs_middle r [] after d o q e h others later =
      apply_defs-Swapped _ after d o q later
        (subst (λ x. Swapped (apply_def env r d x now) d o q) (sym e) (apply_def-Swapped r d o q h))
  apply_defs_middle r (b ∷ before) after d o q e h (other, others) later =
      apply_defs_middle (apply_def env r b (lookup b.name r.runtimes) now) before after d o q
        (apply_def-Other r b d.name other _ ∙ e) (apply_def-Has r b _ o q h) others later

-- A settings swap that names an enabled provider once gives it a runtime: a new one, or the one
-- that it had, with the breaker, the governor and the counters, under the new definition, with a
-- pool rebuilt from the pool it had for the lanes of that definition.
pub rebuild-Swapped :
    {host : Host} (env : String → Option String) (now : ℕ) (r : RouterInner host)
    (stored : StoredConfig) (before after : List ProviderDef) (d : ProviderDef)
    → enabled_providers stored ≡ before ++ d ∷ after
    → All (Other d.name) before
    → All (Other d.name) after
    → Pooled r (lookup d.name r.runtimes)
    → Swapped env now
        (rebuild env r stored now)
        d
        (lookup d.name r.runtimes)
        (pool_of r (lookup d.name r.runtimes))
unfolding rebuild
rebuild-Swapped env now r stored before after d e others later h =
    let o = lookup d.name r.runtimes in
    subst (λ ds. Swapped env now (apply_defs env (retained r stored) ds now) d o (pool_of r o))
      (sym e)
      (apply_defs_middle env now (retained r stored) before after d o (pool_of r o)
        (find-keep_key (keeps stored.providers) d.name r.runtimes (
          keeps_enabled stored.providers d
            (subst (In d) (sym e) (In-append_middle before after d))))
        (Pooled-Has (retained r stored) o h) others later)
