-- ===== src/Pool/Sorted.antt =====
-- The sort by `!enabled` in proxy/src/pool.rs puts the enabled specs first, each part in its order.
use flock.Base.{◌≡◌, refl, inl, inr, true, false, not, List, [], ◌∷◌, ◌++◌, keep, arith, Bool-cases}
use flock.Pool.{LaneSpec, insert_spec, enabled_first}

abbrev pub live : List LaneSpec → List LaneSpec
live specs = keep (λ s. s.enabled) specs

abbrev pub carriers : List LaneSpec → List LaneSpec
carriers specs = keep (λ s. not s.enabled) specs

insert_spec_live :
    (s : LaneSpec) (xs : List LaneSpec) → s.enabled ≡ true → insert_spec s xs ≡ s ∷ xs
unfolding insert_spec
insert_spec_live s [] t = refl
insert_spec_live s (x ∷ xs) t = rw t refl

insert_spec_carrier :
    (s : LaneSpec) (ys xs : List LaneSpec)
    → s.enabled ≡ false
    → insert_spec s (live xs ++ carriers ys) ≡ live xs ++ s ∷ carriers ys
unfolding insert_spec
insert_spec_carrier s [] [] f = refl
insert_spec_carrier s (y ∷ ys) [] f = ground (arith, f, insert_spec_carrier s ys [] f)
insert_spec_carrier s ys (x ∷ xs) f = ground (arith, f, insert_spec_carrier s ys xs f)

pub enabled_first_parts :
    (specs : List LaneSpec) → enabled_first specs ≡ live specs ++ carriers specs
unfolding enabled_first
enabled_first_parts [] = refl
enabled_first_parts (s ∷ rest) = elim (Bool-cases s.enabled) [
  | inl t ↦
      ground (arith, t, enabled_first_parts rest, insert_spec_live s (live rest ++ carriers rest) t)
  | inr f ↦ ground (arith, f, enabled_first_parts rest, insert_spec_carrier s rest rest f)
]
