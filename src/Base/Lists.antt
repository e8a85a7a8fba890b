-- ===== src/Base/Lists.antt =====
-- Lists measured and indexed by native numbers, and predicates on their entries.
use Prim.Native.Nat.{ℕ, zero, suc, ◌+◌, ◌-◌, ◌≤◌, ◌<◌}
use mathlib.Core.Path.{◌≡◌, refl, ap, ap₂, subst}
use mathlib.Core.Logic.{◌≢◌, ◌⊎◌, inl, inr, ite, ∥∥₁_elim}
use mathlib.Core.Bool.{Bool, true, false, ◌&&◌}
use mathlib.Core.List.{List, [], ◌∷◌, ◌++◌, Perm, Permᴰ}
use mathlib.Core.Option.{Option, none, some}
use native.Mathlib.Omega.{arith}
use flock.Base.Tests.{if◌then◌else◌}

module _ {ℓ} {A : Type ℓ} where
  abbrev pub length : List A → ℕ
  length [] = 0
  length (x ∷ xs) = suc (length xs)

  abbrev pub get_elem? : List A → ℕ → Option A
  get_elem? [] i = none
  get_elem? (x ∷ xs) zero = some x
  get_elem? (x ∷ xs) (suc i) = get_elem? xs i

  abbrev pub get_or : List A → ℕ → A → A
  get_or [] i d = d
  get_or (x ∷ xs) zero d = x
  get_or (x ∷ xs) (suc i) d = get_or xs i d

  -- a write out of bounds changes nothing
  abbrev pub set : List A → ℕ → A → List A
  set [] i v = []
  set (x ∷ xs) zero v = v ∷ xs
  set (x ∷ xs) (suc i) v = x ∷ set xs i v

  abbrev pub take : ℕ → List A → List A
  take zero xs = []
  take (suc n) [] = []
  take (suc n) (x ∷ xs) = x ∷ take n xs

  abbrev pub replicate : ℕ → A → List A
  replicate zero a = []
  replicate (suc n) a = a ∷ replicate n a

  pub length-append : (xs ys : List A) → length (xs ++ ys) ≡ length xs + length ys
  length-append [] ys = omega arith
  length-append (x ∷ xs) ys = omega (arith, length-append xs ys)

  pub length-set : (xs : List A) (i : ℕ) (v : A) → length (set xs i v) ≡ length xs
  length-set [] i v = refl
  length-set (x ∷ xs) zero v = refl
  length-set (x ∷ xs) (suc i) v = ap suc (length-set xs i v)

  pub get_elem?-set_self :
      (xs : List A) (i : ℕ) (v : A) → i < length xs → get_elem? (set xs i v) i ≡ some v
  get_elem?-set_self [] i v h = elim h [ ]
  get_elem?-set_self (x ∷ xs) zero v h = refl
  get_elem?-set_self (x ∷ xs) (suc i) v h = get_elem?-set_self xs i v (omega arith)

  pub get_elem?_bound : (xs : List A) (i : ℕ) (v : A) → get_elem? xs i ≡ some v → i < length xs
  get_elem?_bound [] i v h = absurd (ground (arith, h))
  get_elem?_bound (x ∷ xs) zero v h = omega arith
  get_elem?_bound (x ∷ xs) (suc i) v h = omega (arith, get_elem?_bound xs i v h)

  pub get_elem?_total : (xs : List A) (i : ℕ) → i < length xs → (v : A) × (get_elem? xs i ≡ some v)
  get_elem?_total [] i h = absurd (omega arith)
  get_elem?_total (x ∷ xs) zero h = (x, refl)
  get_elem?_total (x ∷ xs) (suc i) h = get_elem?_total xs i (omega arith)

  pub get_elem?-set_ne :
      (xs : List A) (i j : ℕ) (v : A) → i ≢ j → get_elem? (set xs i v) j ≡ get_elem? xs j
  get_elem?-set_ne [] i j v h = refl
  get_elem?-set_ne (x ∷ xs) zero zero v h = absurd (h refl)
  get_elem?-set_ne (x ∷ xs) zero (suc j) v h = refl
  get_elem?-set_ne (x ∷ xs) (suc i) zero v h = refl
  get_elem?-set_ne (x ∷ xs) (suc i) (suc j) v h = get_elem?-set_ne xs i j v (λ e. h (ap suc e))

  -- the entries that pass a test, in order
  abbrev pub keep : (A → Bool) → List A → List A
  keep p [] = []
  keep p (x ∷ xs) = let rest = keep p xs in if p x then x ∷ rest else rest

  pub length-keep-le : (p : A → Bool) (xs : List A) → length (keep p xs) ≤ length xs
  length-keep-le p [] = omega arith
  length-keep-le p (x ∷ xs) = ground (arith, length-keep-le p xs)

  pub keep_whole : (p : A → Bool) (xs : List A) → length xs ≤ length (keep p xs) → keep p xs ≡ xs
  keep_whole p [] h = refl
  keep_whole p (x ∷ xs) h = ground (arith, length-keep-le p xs, keep_whole p xs)

  pub keep-keep : (p q : A → Bool) (xs : List A) → keep p (keep q xs) ≡ keep (λ x. q x && p x) xs
  keep-keep p q [] = refl
  keep-keep p q (x ∷ xs) = ground (arith, keep-keep p q xs)

module _ {ℓ κ} {A : Type ℓ} (P : A → Type κ) where
  abbrev pub All : List A → Type κ
  All [] = Unit
  All (x ∷ xs) = P x × All xs

  pub All-append : (xs ys : List A) → All xs → All ys → All (xs ++ ys)
  All-append [] ys _ k = k
  All-append (x ∷ xs) ys (p, h) k = (p, All-append xs ys h k)

module _ {A : Type 0} (dec : Discrete A) where
  unfoldable pub count : A → List A → ℕ
  count a [] = 0
  count a (x ∷ xs) = ite (dec x a) (suc (count a xs)) (count a xs)

  -- the list without its first entry equal to `a`
  unfoldable pub remove_one : A → List A → List A
  remove_one a [] = []
  remove_one a (x ∷ xs) = ite (dec x a) xs (x ∷ remove_one a xs)

  pub count-remove_one_self : (a : A) (xs : List A) → count a (remove_one a xs) ≡ count a xs - 1
  unfolding count remove_one
  count-remove_one_self a [] = omega arith
  count-remove_one_self a (x ∷ xs) = ground (arith, count-remove_one_self a xs)

  pub count-remove_one_ne : (a b : A) (xs : List A) → a ≢ b → count b (remove_one a xs) ≡ count b xs
  unfolding count remove_one
  count-remove_one_ne a b [] h = refl
  count-remove_one_ne a b (x ∷ xs) h = ground (arith, count-remove_one_ne a b xs)

  pub count-le-length : (a : A) (xs : List A) → count a xs ≤ length xs
  unfolding count
  count-le-length a [] = omega arith
  count-le-length a (x ∷ xs) = ground (arith, count-le-length a xs)

  pub length-remove_one-le : (a : A) (xs : List A) → length (remove_one a xs) ≤ length xs
  unfolding remove_one
  length-remove_one-le a [] = omega arith
  length-remove_one-le a (x ∷ xs) = ground (arith, length-remove_one-le a xs)

module _ {A : Type 0} where
  -- membership, by recursion
  abbrev pub In : A → List A → Type 0
  In a [] = ⊥
  In a (x ∷ xs) = (a ≡ x) ⊎ In a xs

  pub In-if : (a y : A) (b : Bool) (xs : List A) → In a xs → In a (if b then y ∷ xs else xs)
  In-if a y true xs h = inr h
  In-if a y false xs h = h

  pub In-if_elim :
      (a y : A) (b : Bool) (xs : List A)
      → In a (if b then y ∷ xs else xs)
      → ((b ≡ true) × (a ≡ y)) ⊎ In a xs
  In-if_elim a y true xs (inl e) = inl (refl, e)
  In-if_elim a y true xs (inr h) = inr h
  In-if_elim a y false xs h = inr h

module _ {A : Type 0} (P : A → Type 0) (prop : (a : A) → IsProp (P a)) where
  All-IsProp : (xs : List A) → IsProp (All P xs)
  All-IsProp [] a b = refl
  All-IsProp (x ∷ xs) (p, h) (q, k) = ap₂ (λ y ys. (y, ys)) (prop x p q) (All-IsProp xs h k)

  All-Permᴰ : {xs ys : List A} → Permᴰ xs ys → All P xs → All P ys
  All-Permᴰ Permᴰ.nil h = tt
  All-Permᴰ (Permᴰ.cons e d) (p, h) = (subst P e p, All-Permᴰ d h)
  All-Permᴰ (Permᴰ.swap e e') (p, (q, h)) = (subst P e' q, (subst P e p, h))
  All-Permᴰ (Permᴰ.trans d d') h = All-Permᴰ d' (All-Permᴰ d h)

  pub All-Perm : {xs ys : List A} → Perm xs ys → All P xs → All P ys
  All-Perm {ys = ys} p h = ∥∥₁_elim p (All-IsProp ys) (λ d. All-Permᴰ d h)
