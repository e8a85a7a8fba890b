-- ===== src/Base/Dict.antt =====
-- A `HashMap` as an association list: one entry for a key, in no order that a caller may rely on.
use mathlib.Core.Path.{◌≡◌, refl, ap, ◌∙◌}
use mathlib.Core.Logic.{◌≢◌, ite}
use mathlib.Core.Bool.{Bool}
use mathlib.Core.List.{List, [], ◌∷◌}
use mathlib.Core.Option.{Option, none, some}
use native.Mathlib.Omega.{arith}
use flock.Base.Tests.{if◌then◌else◌}
use flock.Base.Lists.{keep}

module _ {ℓ} {K V : Type ℓ} (dec : Discrete K) where
  -- `HashMap::get`
  unfoldable pub find : K → List (K × V) → Option V
  find k [] = none
  find k ((j, v) ∷ m) = ite (dec j k) (some v) (find k m)

  -- `HashMap::insert`: the entry of the key is replaced, or a new one is added
  unfoldable pub insert : K → V → List (K × V) → List (K × V)
  insert k v [] = (k, v) ∷ []
  insert k v ((j, w) ∷ m) = ite (dec j k) ((k, v) ∷ m) ((j, w) ∷ insert k v m)

  -- `HashMap::remove`
  unfoldable pub remove : K → List (K × V) → List (K × V)
  remove k [] = []
  remove k ((j, w) ∷ m) = let rest = remove k m in ite (dec j k) rest ((j, w) ∷ rest)

  pub find-insert :
      (k j : K) (v : V) (m : List (K × V))
      → find j (insert k v m) ≡ ite (dec k j) (some v) (find j m)
  unfolding find insert
  find-insert k j v [] = refl
  find-insert k j v ((i, w) ∷ m) = ground (arith, find-insert k j v m)

  pub find-insert_self : (k : K) (v : V) (m : List (K × V)) → find k (insert k v m) ≡ some v
  find-insert_self k v m = ground (arith, find-insert k k v m)

  pub find-insert_ne :
      (k j : K) (v : V) (m : List (K × V)) → k ≢ j → find j (insert k v m) ≡ find j m
  find-insert_ne k j v m h = ground (arith, find-insert k j v m)

  pub find-remove :
      (k j : K) (m : List (K × V)) → find j (remove k m) ≡ ite (dec k j) none (find j m)
  unfolding find remove
  find-remove k j [] = ground arith
  find-remove k j ((i, w) ∷ m) = ground (arith, find-remove k j m)

  -- no key has two entries
  abbrev pub Unique : List (K × V) → Type ℓ
  Unique [] = Unit
  Unique ((k, v) ∷ m) = (find k m ≡ none) × Unique m

  pub insert-Unique : (k : K) (v : V) (m : List (K × V)) → Unique m → Unique (insert k v m)
  unfolding insert find
  insert-Unique k v [] u = (refl, tt)
  insert-Unique k v ((j, w) ∷ m) (fresh, u) =
      ground (arith, insert-Unique k v m u, find-insert k j v m)

  -- what a filter leaves under a key
  abbrev pub filtered : (V → Bool) → Option V → Option V
  filtered p none = none
  filtered p (some v) = if p v then some v else none

  pub find-keep-none :
      (p : V → Bool) (k : K) (m : List (K × V))
      → find k m ≡ none
      → find k (keep (λ e. p e.1) m) ≡ none
  unfolding find
  find-keep-none p k [] h = refl
  find-keep-none p k ((j, w) ∷ m) h = ground (arith, find-keep-none p k m)

  pub find-keep :
      (p : V → Bool) (k : K) (m : List (K × V))
      → Unique m
      → find k (keep (λ e. p e.1) m) ≡ filtered p (find k m)
  unfolding find
  find-keep p k [] u = refl
  find-keep p k ((j, w) ∷ m) (fresh, u) =
      ground (arith, find-keep p k m u, find-keep-none p j m fresh)

  pub keep-Unique : (p : V → Bool) (m : List (K × V)) → Unique m → Unique (keep (λ e. p e.1) m)
  unfolding find
  keep-Unique p [] u = tt
  keep-Unique p ((j, w) ∷ m) (fresh, u) =
      ground (arith, keep-Unique p m u, find-keep-none p j m fresh)

module _ {ℓ} {K V W : Type ℓ} (dec : Discrete K) (f : V → W) where
  abbrev pub map_values : List (K × V) → List (K × W)
  map_values [] = []
  map_values ((k, v) ∷ m) = (k, f v) ∷ map_values m

  abbrev pub map_found : Option V → Option W
  map_found none = none
  map_found (some v) = some (f v)

  pub find-map_values :
      (k : K) (m : List (K × V)) → find dec k (map_values m) ≡ map_found (find dec k m)
  unfolding find
  find-map_values k [] = refl
  find-map_values k ((j, v) ∷ m) = ground (arith, find-map_values k m)

  pub insert-map_values :
      (k : K) (v : V) (m : List (K × V))
      → map_values (insert dec k v m) ≡ insert dec k (f v) (map_values m)
  unfolding insert
  insert-map_values k v [] = refl
  insert-map_values k v ((j, w) ∷ m) = ground (arith, insert-map_values k v m)

  find-map_values-none :
      (k : K) (m : List (K × V)) → find dec k m ≡ none → find dec k (map_values m) ≡ none
  find-map_values-none k m h = find-map_values k m ∙ ap map_found h

  pub map_values-Unique : (m : List (K × V)) → Unique dec m → Unique dec (map_values m)
  map_values-Unique [] u = tt
  map_values-Unique ((k, v) ∷ m) (fresh, u) =
      (find-map_values-none k m fresh, map_values-Unique m u)
