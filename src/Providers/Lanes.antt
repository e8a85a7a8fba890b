-- ===== src/Providers/Lanes.antt =====
-- The lanes of a provider in proxy/src/providers.rs, as the pool of proxy/src/pool.rs takes them.
use flock.Base.{
  ◌<◌, ◌≡◌, refl, true, false, ◌||◌, Option, none, some, List, [], ◌∷◌, String, String-discrete,
  arith, All, Bool-cases, inl, inr, is_empty_text,
}
use flock.Pool.{LaneSpec}
use flock.Pool.Swap.{DistinctSpecs, find_spec}
use flock.Providers.{
  ProviderKey, ProviderDef, rpm_for, contains, resolve_key_material, spec_of, seen_after, prepend,
  specs_from, lane_specs,
}

contains-cons :
    (a x : String) (xs : List String) → contains a xs ≡ true → contains a (x ∷ xs) ≡ true
unfolding contains
contains-cons a x xs h = ground (arith, h)

contains_head : (a : String) (xs : List String) → contains a (a ∷ xs) ≡ true
unfolding contains
contains_head a xs = ground arith

-- the lanes of keys, none of them twice, each with a budget
abbrev pub Laned : List LaneSpec → Type 0
Laned specs = DistinctSpecs specs × All (λ s. 0 < s.rpm) specs

module _ (env : String → Option String) (d : ProviderDef) where
  rpm_for_positive : (k : ProviderKey) → 0 < rpm_for d k
  unfolding rpm_for
  rpm_for_positive k = ground arith

  -- what a new spec is
  spec_of_new :
      (seen : List String) (k : ProviderKey) (o : Option String) (s : LaneSpec)
      → spec_of env d seen k o ≡ some s
      → (contains s.key seen ≡ false) × (0 < s.rpm)
  unfolding spec_of
  spec_of_new seen k none s e = absurd (ground (arith, e))
  spec_of_new seen k (some m) s e = elim (Bool-cases (is_empty_text m || contains m seen)) [
    | inl t ↦ absurd (ground (arith, t, e))
    | inr f ↦ ground (arith, f, e, rpm_for_positive k)
  ]

  specs_from_seen :
      (a : String) (seen : List String) (ks : List ProviderKey)
      → contains a seen ≡ true
      → find_spec a (specs_from env d seen ks) ≡ none
  unfolding specs_from find_spec
  specs_from_seen a seen [] h = refl
  specs_from_seen a seen (k ∷ ks) h =
      go (spec_of env d seen k (resolve_key_material env k)) refl
        (λ seen'. specs_from_seen a seen' ks)
    where
      go :
          (o : Option LaneSpec)
          → spec_of env d seen k (resolve_key_material env k) ≡ o
          → ((seen' : List String)
              → contains a seen' ≡ true
              → find_spec a (specs_from env d seen' ks) ≡ none)
          → find_spec a (prepend env o (specs_from env d (seen_after env o seen) ks)) ≡ none
      go none e ih = ih seen h
      go (some s) e ih =
          let fresh = spec_of_new seen k (resolve_key_material env k) s e in
          elim (String-discrete s.key a) [
            | yes y ↦ absurd (ground (arith, fresh.0, h, y))
            | no n ↦ ground (arith, n, ih (s.key ∷ seen) (contains-cons a s.key seen h))
          ]

  specs_from-Laned : (seen : List String) (ks : List ProviderKey) → Laned (specs_from env d seen ks)
  unfolding specs_from
  specs_from-Laned seen [] = (tt, tt)
  specs_from-Laned seen (k ∷ ks) =
      go (spec_of env d seen k (resolve_key_material env k)) refl
        (λ seen'. specs_from-Laned seen' ks)
    where
      go :
          (o : Option LaneSpec)
          → spec_of env d seen k (resolve_key_material env k) ≡ o
          → ((seen' : List String) → Laned (specs_from env d seen' ks))
          → Laned (prepend env o (specs_from env d (seen_after env o seen) ks))
      go none e ih = ih seen
      go (some s) e ih =
          let fresh = spec_of_new seen k (resolve_key_material env k) s e in
          let later = ih (s.key ∷ seen) in
          (
            (specs_from_seen s.key (s.key ∷ seen) ks (contains_head s.key seen), later.0),
            (fresh.1, later.1),
          )

  -- The lanes that a provider makes of its keys are such as the pool needs them: no key material has
  -- two lanes, whatever keys are repeated literally or through the environment, and every lane has
  -- a positive budget.
  pub lane_specs-Laned : Laned (lane_specs env d)
  unfolding lane_specs
  lane_specs-Laned = specs_from-Laned [] d.keys
