-- ===== src/Observer/Counts.antt =====
-- What a count stands for in proxy/src/observation.rs, over the events of a stream.
use flock.Base.{
  ℕ, ◌≡◌, ◌≢◌, ◌↔◌, refl, ◌⊎◌, inl, inr, true, false, Option, none, some, List, [], ◌∷◌, arith,
  ◌==◌, Option-cases, Bool-cases, ◌∙◌, ap,
}
use flock.Observer.Json.{Value, as_u64, is_null}
use flock.Observer.Usage.{
  measured, SeenNumber, number_absent, number_invalid, number_value, number_of, merge_number,
  observe_number, number_result,
}

-- one field, seen in one event after another
unfoldable pub observe_each : SeenNumber → List Value → SeenNumber
unfolding observe_number
observe_each seen [] = seen
observe_each seen (v ∷ vs) = observe_each (observe_number seen (some v)) vs

-- each value that is not null is the number `n`
abbrev pub AllSay : ℕ → List Value → Type 0
AllSay n [] = Unit
AllSay n (v ∷ vs) = ((is_null v ≡ true) ⊎ (as_u64 v ≡ some n)) × AllSay n vs

-- not all values are null
abbrev pub SomeSays : List Value → Type 0
SomeSays [] = ⊥
SomeSays (v ∷ vs) = (is_null v ≡ false) ⊎ SomeSays vs

observe_null :
    (seen : SeenNumber) (v : Value) → is_null v ≡ true → observe_number seen (some v) ≡ seen
unfolding observe_number
observe_null seen v t = rw t refl

observe_other :
    (seen : SeenNumber) (v : Value)
    → is_null v ≡ false
    → observe_number seen (some v) ≡ merge_number seen (number_of (as_u64 v))
unfolding observe_number
observe_other seen v f = rw f refl

merge_invalid : (o : SeenNumber) → merge_number number_invalid o ≡ number_invalid
merge_invalid o = refl

observe_each_invalid :
    (n : ℕ) (vs : List Value) → number_result (observe_each number_invalid vs) ≢ measured n
unfolding observe_each
observe_each_invalid n [] e = ground (arith, e)
observe_each_invalid n (v ∷ vs) e = elim (Bool-cases (is_null v)) [
  | inl t ↦ observe_each_invalid n vs (rw (observe_null number_invalid v t) at e)
  | inr f ↦ observe_each_invalid n vs (rw (observe_other number_invalid v f) at e)
]

-- a value that contradicts the number, or is none
merge_value :
    (m : ℕ) (o : Option ℕ)
    → (o ≡ some m) ⊎ (merge_number (number_value m) (number_of o) ≡ number_invalid)
merge_value m none = inr refl
merge_value m (some k) = elim (Bool-cases (m == k)) [
  | inl t ↦ inl (ground (arith, t))
  | inr f ↦ inr (rw f refl)
]

merge_same :
    (m : ℕ) (o : Option ℕ)
    → o ≡ some m
    → merge_number (number_value m) (number_of o) ≡ number_value m
merge_same m o e = rw e (ground arith)

observe_each_value :
    (m n : ℕ) (vs : List Value)
    → number_result (observe_each (number_value m) vs) ≡ measured n
    → (m ≡ n) × AllSay n vs
unfolding observe_each
observe_each_value m n [] e = (ground (arith, e), tt)
observe_each_value m n (v ∷ vs) e = elim (Bool-cases (is_null v)) [
  | inl t ↦
      let (same, all) = observe_each_value m n vs (rw (observe_null (number_value m) v t) at e) in
      (same, (inl t, all))
  | inr f ↦ elim (merge_value m (as_u64 v)) [
    | inl is ↦
        let (same, all) =
          observe_each_value m n vs
            (rw (observe_other (number_value m) v f, merge_same m (as_u64 v) is) at e) in
        (same, (inr (is ∙ ap some same), all))
    | inr bad ↦
        absurd (observe_each_invalid n vs (rw (observe_other (number_value m) v f, bad) at e))
  ]
]

value-observe_each :
    (n : ℕ) (vs : List Value) → AllSay n vs → observe_each (number_value n) vs ≡ number_value n
unfolding observe_each
value-observe_each n [] a = refl
value-observe_each n (v ∷ vs) a = elim (Bool-cases (is_null v)) [
  | inl t ↦ rw (observe_null (number_value n) v t) (value-observe_each n vs a.1)
  | inr f ↦
      let is : as_u64 v ≡ some n = ground (arith, a.0, f) in
      rw (observe_other (number_value n) v f, merge_same n (as_u64 v) is)
        (value-observe_each n vs a.1)
]

observe_each_absent :
    (n : ℕ) (vs : List Value)
    → number_result (observe_each number_absent vs) ≡ measured n
    → AllSay n vs × SomeSays vs
unfolding observe_each
observe_each_absent n [] e = absurd (ground (arith, e))
observe_each_absent n (v ∷ vs) e = elim (Bool-cases (is_null v)) [
  | inl t ↦
      let (all, some_says) = observe_each_absent n vs (rw (observe_null number_absent v t) at e) in
      ((inl t, all), inr some_says)
  | inr f ↦ elim (Option-cases (as_u64 v)) [
    | inl none_is ↦
        absurd (observe_each_invalid n vs (rw (observe_other number_absent v f, none_is) at e))
    | inr (m, is) ↦
        let (same, all) =
          observe_each_value m n vs (rw (observe_other number_absent v f, is) at e) in
        ((inr (is ∙ ap some same), all), inl f)
  ]
]

absent-observe_each :
    (n : ℕ) (vs : List Value)
    → AllSay n vs
    → SomeSays vs
    → observe_each number_absent vs ≡ number_value n
unfolding observe_each
absent-observe_each n [] a h = absurd h
absent-observe_each n (v ∷ vs) a h = elim (Bool-cases (is_null v)) [
  | inl t ↦
      let later : SomeSays vs = ground (arith, t, h) in
      rw (observe_null number_absent v t) (absent-observe_each n vs a.1 later)
  | inr f ↦
      let is : as_u64 v ≡ some n = ground (arith, a.0, f) in
      rw (observe_other number_absent v f, is) (value-observe_each n vs a.1)
]

-- A fold of values comes to a number exactly when some value is not null and each that is not null
-- is this number.
pub measured_iff_AllSay :
    (n : ℕ) (vs : List Value)
    → (number_result (observe_each number_absent vs) ≡ measured n) ↔ (AllSay n vs × SomeSays vs)
measured_iff_AllSay n vs =
    (observe_each_absent n vs, λ (a, h). rw (absent-observe_each n vs a h) refl)
