-- ===== src/Pool/Swap.antt =====
-- `assemble` of proxy/src/pool.rs: what a settings change makes of the lanes.
use flock.Base.{
  ℕ, ◌≡◌, refl, ◌⊎◌, inl, inr, Bool, true, false, not, Option, none, some, List, [], ◌∷◌, ◌++◌, map,
  arith, ite, length, take, keep, String, String-discrete, Option-cases, Bool-cases,
}
use flock.Pool.Lanes.{Lane}
use flock.Pool.{LaneSpec, Pool, find_lane, lane_from, enabled_first, new, rebuild}
use flock.Pool.Keys.{Distinct}
use flock.Pool.Sorted.{enabled_first_parts}

unfoldable pub find_spec : String → List LaneSpec → Option LaneSpec
find_spec k [] = none
find_spec k (s ∷ ss) = ite (String-discrete s.key k) (some s) (find_spec k ss)

-- no two specs have one key
abbrev pub DistinctSpecs : List LaneSpec → Type 0
DistinctSpecs [] = Unit
DistinctSpecs (s ∷ ss) = (find_spec s.key ss ≡ none) × DistinctSpecs ss

find_spec-append :
    (k : String) (xs ys : List LaneSpec)
    → find_spec k (xs ++ ys) ≡ elim (find_spec k xs) [ none ↦ find_spec k ys | some s ↦ some s ]
unfolding find_spec
find_spec-append k [] ys = refl
find_spec-append k (x ∷ xs) ys = ground (arith, find_spec-append k xs ys)

find_spec-key :
    (k : String) (xs : List LaneSpec) (s : LaneSpec) → find_spec k xs ≡ some s → s.key ≡ k
unfolding find_spec
find_spec-key k [] s f = absurd (ground arith)
find_spec-key k (x ∷ xs) s f = ground (arith, find_spec-key k xs s)

module _ (q : LaneSpec → Bool) where
  keep_absent :
      (k : String) (xs : List LaneSpec) → find_spec k xs ≡ none → find_spec k (keep q xs) ≡ none
  unfolding find_spec
  keep_absent k [] n = refl
  keep_absent k (x ∷ xs) n = ground (arith, keep_absent k xs)

  keep_found :
      (k : String) (xs : List LaneSpec) (s : LaneSpec)
      → find_spec k xs ≡ some s
      → q s ≡ true
      → find_spec k (keep q xs) ≡ some s
  unfolding find_spec
  keep_found k [] s f t = absurd (ground arith)
  keep_found k (x ∷ xs) s f t = elim (String-discrete x.key k) [
    | yes e ↦ ground arith
    | no e ↦ ground (arith, keep_found k xs s)
  ]

  keep_dropped :
      (k : String) (xs : List LaneSpec) (s : LaneSpec)
      → DistinctSpecs xs
      → find_spec k xs ≡ some s
      → q s ≡ false
      → find_spec k (keep q xs) ≡ none
  unfolding find_spec
  keep_dropped k [] s d f t = refl
  keep_dropped k (x ∷ xs) s d f t = elim (String-discrete x.key k) [
    | yes e ↦ ground (arith, keep_absent x.key xs d.0)
    | no e ↦ ground (arith, keep_dropped k xs s d.1)
  ]

  keep-DistinctSpecs : (xs : List LaneSpec) → DistinctSpecs xs → DistinctSpecs (keep q xs)
  keep-DistinctSpecs [] d = tt
  keep-DistinctSpecs (x ∷ xs) d =
      ground (arith, keep-DistinctSpecs xs d.1, keep_absent x.key xs d.0)

append-DistinctSpecs :
    (xs ys : List LaneSpec)
    → DistinctSpecs xs
    → DistinctSpecs ys
    → ((k : String) → (find_spec k xs ≡ none) ⊎ (find_spec k ys ≡ none))
    → DistinctSpecs (xs ++ ys)
unfolding find_spec
append-DistinctSpecs [] ys dx dy disjoint = dy
append-DistinctSpecs (x ∷ xs) ys dx dy disjoint = (
  ground (arith, find_spec-append x.key xs ys, dx.0, disjoint x.key),
  append-DistinctSpecs xs ys dx.1 dy (λ k. ground (arith, disjoint k)),
)

-- the two parts of the sort by `!enabled` share no key
parts_disjoint :
    (k : String) (specs : List LaneSpec)
    → DistinctSpecs specs
    → (find_spec k (keep (λ s. s.enabled) specs) ≡ none)
      ⊎ (find_spec k (keep (λ s. not s.enabled) specs) ≡ none)
parts_disjoint k specs d = elim (Option-cases (find_spec k specs)) [
  | inl n ↦ inl (keep_absent (λ s. s.enabled) k specs n)
  | inr (s, f) ↦ elim (Bool-cases s.enabled) [
    | inl t ↦ inr (keep_dropped (λ s. not s.enabled) k specs s d f (rw t))
    | inr n ↦ inl (keep_dropped (λ s. s.enabled) k specs s d f n)
  ]
]

enabled_first-DistinctSpecs :
    (specs : List LaneSpec) → DistinctSpecs specs → DistinctSpecs (enabled_first specs)
enabled_first-DistinctSpecs specs d = rw (enabled_first_parts specs) (
    append-DistinctSpecs (keep (λ s. s.enabled) specs) (keep (λ s. not s.enabled) specs)
      (keep-DistinctSpecs (λ s. s.enabled) specs d)
      (keep-DistinctSpecs (λ s. not s.enabled) specs d) (λ k. parts_disjoint k specs d))

-- the sort by `!enabled` finds the specs that there were
find_spec-enabled_first :
    (k : String) (specs : List LaneSpec) (s : LaneSpec)
    → DistinctSpecs specs
    → find_spec k specs ≡ some s
    → find_spec k (enabled_first specs) ≡ some s
find_spec-enabled_first k specs s d f = elim (Bool-cases s.enabled) [
  | inl t ↦ rw (
    enabled_first_parts specs,
    find_spec-append k (keep (λ s. s.enabled) specs) (keep (λ s. not s.enabled) specs),
    keep_found (λ s. s.enabled) k specs s f t,
  )
  | inr n ↦
      rw
        (
          enabled_first_parts specs,
          find_spec-append k (keep (λ s. s.enabled) specs) (keep (λ s. not s.enabled) specs),
          keep_dropped (λ s. s.enabled) k specs s d f n,
        )
        (keep_found (λ s. not s.enabled) k specs s f (rw n))
]

-- the lanes of a list of specs
abbrev lanes_of : ℕ → List Lane → List LaneSpec → List Lane
lanes_of now old = map (λ s. lane_from now s (find_lane s.key old))

lane_from-key : (now : ℕ) (s : LaneSpec) (o : Option Lane) → (lane_from now s o).key ≡ s.key
lane_from-key now s none = refl
lane_from-key now s (some l) = refl

find_lane-lanes_of :
    (now : ℕ) (old : List Lane) (k : String) (specs : List LaneSpec)
    → find_lane k (lanes_of now old specs) ≡ elim (find_spec k specs) [
      | none ↦ none
      | some s ↦ some (lane_from now s (find_lane s.key old))
    ]
unfolding find_lane find_spec
find_lane-lanes_of now old k [] = refl
find_lane-lanes_of now old k (s ∷ ss) =
    ground (arith, find_lane-lanes_of now old k ss, lane_from-key now s (find_lane s.key old))

lanes_of-Distinct :
    (now : ℕ) (old : List Lane) (specs : List LaneSpec)
    → DistinctSpecs specs
    → Distinct (lanes_of now old specs)
lanes_of-Distinct now old [] d = tt
lanes_of-Distinct now old (s ∷ ss) d = (
  rw (lane_from-key now s (find_lane s.key old), find_lane-lanes_of now old s.key ss, d.0),
  lanes_of-Distinct now old ss d.1,
)

pub rebuild-Distinct :
    (p : Pool) (specs : List LaneSpec) (now : ℕ)
    → DistinctSpecs specs
    → Distinct (rebuild p specs now).lanes
unfolding rebuild
rebuild-Distinct p specs now d =
    lanes_of-Distinct now p.lanes (enabled_first specs) (enabled_first-DistinctSpecs specs d)

-- A key that stays in the settings, enabled or not before and after, keeps its window and its
-- cooldown across a swap, under its new budget.
pub find_lane-rebuild :
    (p : Pool) (specs : List LaneSpec) (now : ℕ) (k : String) (s : LaneSpec) (l : Lane)
    → DistinctSpecs specs
    → find_spec k specs ≡ some s
    → find_lane k p.lanes ≡ some l
    → find_lane k (rebuild p specs now).lanes
      ≡ some (record { key = k; rpm = s.rpm; sent = l.sent; cooldown_until = l.cooldown_until })
unfolding rebuild
find_lane-rebuild p specs now k s l d f g = rw (
  find_lane-lanes_of now p.lanes k (enabled_first specs),
  find_spec-enabled_first k specs s d f,
  find_spec-key k specs s f,
  g,
)

pub new-Distinct :
    (specs : List LaneSpec) (now : ℕ) → DistinctSpecs specs → Distinct (new specs now).lanes
unfolding new
new-Distinct specs now d =
    lanes_of-Distinct now [] (enabled_first specs) (enabled_first-DistinctSpecs specs d)

-- a key of a new pool starts with an empty window and no cooldown to come
pub find_lane-new :
    (specs : List LaneSpec) (now : ℕ) (k : String) (s : LaneSpec)
    → DistinctSpecs specs
    → find_spec k specs ≡ some s
    → find_lane k (new specs now).lanes
      ≡ some (record { key = k; rpm = s.rpm; sent = []; cooldown_until = now })
unfolding new find_lane
find_lane-new specs now k s d f = rw (
  find_lane-lanes_of now [] k (enabled_first specs),
  find_spec-enabled_first k specs s d f,
  find_spec-key k specs s f,
)

map-key-lanes_of :
    (now : ℕ) (old : List Lane) (xs : List LaneSpec)
    → map (λ l. l.key) (lanes_of now old xs) ≡ map (λ s. s.key) xs
map-key-lanes_of now old [] = refl
map-key-lanes_of now old (s ∷ ss) =
    ground (arith, lane_from-key now s (find_lane s.key old), map-key-lanes_of now old ss)

take-lanes_of :
    (now : ℕ) (old : List Lane) (xs ys : List LaneSpec)
    → take (length xs) (lanes_of now old (xs ++ ys)) ≡ lanes_of now old xs
take-lanes_of now old [] ys = refl
take-lanes_of now old (x ∷ xs) ys = rw (take-lanes_of now old xs ys)

-- After a swap the active lanes are those of the enabled specs, in the order of the settings.
pub active_keys-rebuild :
    (p : Pool) (specs : List LaneSpec) (now : ℕ)
    → let p' = rebuild p specs now in
      map (λ l. l.key) (take p'.active p'.lanes) ≡ map (λ s. s.key) (keep (λ s. s.enabled) specs)
unfolding rebuild
active_keys-rebuild p specs now =
    rw
      (
        enabled_first_parts specs,
        take-lanes_of now p.lanes (keep (λ s. s.enabled) specs) (keep (λ s. not s.enabled) specs),
      )
      (map-key-lanes_of now p.lanes (keep (λ s. s.enabled) specs))
