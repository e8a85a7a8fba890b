-- ===== src/Observer/Stated.antt =====
-- What the `usage` values of events state of a count, and the fold of `UsageState::observe` of
-- proxy/src/observation.rs over them.
use flock.Base.{
  ℕ, ◌≡◌, ◌↔◌, refl, ◌⊎◌, inl, inr, true, false, Option, none, some, List, [], ◌∷◌, ◌++◌, String,
  arith,
}
use flock.Observer.Json.{
  Value, null, boolean, number, text, array, object, no_fields, get, as_u64, is_null,
}
use flock.Observer.Usage.{
  SeenNumber, number_absent, number_invalid, number_value, observe_number, UsageState,
  observe_usage,
}
use flock.Observer.Counts.{observe_each, AllSay, SomeSays}

-- `usage` of one event after another
unfoldable pub observe_usages : UsageState → List (Option Value) → UsageState
observe_usages u [] = u
observe_usages u (o ∷ os) = observe_usages (observe_usage u o) os

-- a field is absent, null, or the number `n`
abbrev pub FieldSays : ℕ → Option Value → Type 0
FieldSays n none = Unit
FieldSays n (some v) = (is_null v ≡ true) ⊎ (as_u64 v ≡ some n)

abbrev pub FieldStated : Option Value → Type 0
FieldStated none = ⊥
FieldStated (some v) = is_null v ≡ false

-- a `usage` is absent, null, or an object whose field does not contradict `n`
abbrev pub Says : String → ℕ → Option Value → Type 0
Says key n none = Unit
Says key n (some null) = Unit
Says key n (some (object fs)) = FieldSays n (get fs key)
Says key n (some _) = ⊥

-- a `usage` has the field, and not as null
abbrev pub States : String → Option Value → Type 0
States key (some (object fs)) = FieldStated (get fs key)
States key _ = ⊥

abbrev pub AllAgree : String → ℕ → List (Option Value) → Type 0
AllAgree key n [] = Unit
AllAgree key n (o ∷ os) = Says key n o × AllAgree key n os

abbrev pub SomeStates : String → List (Option Value) → Type 0
SomeStates key [] = ⊥
SomeStates key (o ∷ os) = States key o ⊎ SomeStates key os

-- the values of the field; a `usage` that is no object counts as one that is no number
abbrev pub field_values : Option Value → List Value
field_values none = []
field_values (some v) = v ∷ []

abbrev pub values_of : String → Option Value → List Value
values_of key none = []
values_of key (some null) = []
values_of key (some (object fs)) = field_values (get fs key)
values_of key (some _) = object no_fields ∷ []

abbrev pub all_values : String → List (Option Value) → List Value
all_values key [] = []
all_values key (o ∷ os) = values_of key o ++ all_values key os

observe_each-append :
    (seen : SeenNumber) (xs ys : List Value)
    → observe_each seen (xs ++ ys) ≡ observe_each (observe_each seen xs) ys
unfolding observe_each
observe_each-append seen [] ys = refl
observe_each-append seen (x ∷ xs) ys = observe_each-append (observe_number seen (some x)) xs ys

field_observed :
    (seen : SeenNumber) (o : Option Value)
    → observe_number seen o ≡ observe_each seen (field_values o)
unfolding observe_number observe_each
field_observed seen none = refl
field_observed seen (some v) = refl

no_number : (seen : SeenNumber) → number_invalid ≡ observe_each seen (object no_fields ∷ [])
unfolding observe_number observe_each
no_number number_absent = refl
no_number number_invalid = refl
no_number (number_value n) = refl

prompt_observed :
    (u : UsageState) (o : Option Value)
    → (observe_usage u o).prompt ≡ observe_each u.prompt (values_of "prompt_tokens" o)
unfolding observe_usage observe_each
prompt_observed u none = refl
prompt_observed u (some null) = refl
prompt_observed u (some (boolean b)) = no_number u.prompt
prompt_observed u (some (number n)) = no_number u.prompt
prompt_observed u (some (text t)) = no_number u.prompt
prompt_observed u (some (array vs)) = no_number u.prompt
prompt_observed u (some (object fs)) = field_observed u.prompt (get fs "prompt_tokens")

completion_observed :
    (u : UsageState) (o : Option Value)
    → (observe_usage u o).completion ≡ observe_each u.completion (values_of "completion_tokens" o)
unfolding observe_usage observe_each
completion_observed u none = refl
completion_observed u (some null) = refl
completion_observed u (some (boolean b)) = no_number u.completion
completion_observed u (some (number n)) = no_number u.completion
completion_observed u (some (text t)) = no_number u.completion
completion_observed u (some (array vs)) = no_number u.completion
completion_observed u (some (object fs)) = field_observed u.completion (get fs "completion_tokens")

pub prompt_folded :
    (u : UsageState) (os : List (Option Value))
    → (observe_usages u os).prompt ≡ observe_each u.prompt (all_values "prompt_tokens" os)
unfolding observe_usages observe_each
prompt_folded u [] = refl
prompt_folded u (o ∷ os) = ground (
  arith,
  prompt_folded (observe_usage u o) os,
  prompt_observed u o,
  observe_each-append u.prompt (values_of "prompt_tokens" o) (all_values "prompt_tokens" os),
)

pub completion_folded :
    (u : UsageState) (os : List (Option Value))
    → (observe_usages u os).completion
      ≡ observe_each u.completion (all_values "completion_tokens" os)
unfolding observe_usages observe_each
completion_folded u [] = refl
completion_folded u (o ∷ os) = ground (
  arith,
  completion_folded (observe_usage u o) os,
  completion_observed u o,
  observe_each-append u.completion (values_of "completion_tokens" o)
      (all_values "completion_tokens" os),
)

module _ (n : ℕ) where
  AllSay-append : (xs ys : List Value) → AllSay n xs → AllSay n ys → AllSay n (xs ++ ys)
  AllSay-append [] ys a b = b
  AllSay-append (x ∷ xs) ys a b = (a.0, AllSay-append xs ys a.1 b)

  append-AllSay : (xs ys : List Value) → AllSay n (xs ++ ys) → AllSay n xs × AllSay n ys
  append-AllSay [] ys a = (tt, a)
  append-AllSay (x ∷ xs) ys a = let (b, c) = append-AllSay xs ys a.1 in ((a.0, b), c)

  field-AllSay : (o : Option Value) → AllSay n (field_values o) ↔ FieldSays n o
  field-AllSay none = (λ _. tt, λ _. tt)
  field-AllSay (some v) = (λ a. a.0, λ a. (a, tt))

  nothing : AllSay n (object no_fields ∷ []) ↔ ⊥
  nothing = (λ a. ground (arith, a.0), λ z. absurd z)

  values-AllSay : (key : String) (o : Option Value) → AllSay n (values_of key o) ↔ Says key n o
  values-AllSay key none = (λ _. tt, λ _. tt)
  values-AllSay key (some null) = (λ _. tt, λ _. tt)
  values-AllSay key (some (boolean b)) = nothing
  values-AllSay key (some (number m)) = nothing
  values-AllSay key (some (text t)) = nothing
  values-AllSay key (some (array vs)) = nothing
  values-AllSay key (some (object fs)) = field-AllSay (get fs key)

  pub all-AllSay :
      (key : String) (os : List (Option Value)) → AllSay n (all_values key os) ↔ AllAgree key n os
  all-AllSay key [] = (λ _. tt, λ _. tt)
  all-AllSay key (o ∷ os) = (
    λ a.
        let (b, c) = append-AllSay (values_of key o) (all_values key os) a in
        ((values-AllSay key o).0 b, (all-AllSay key os).0 c),
    λ (b, c).
        AllSay-append (values_of key o) (all_values key os) ((values-AllSay key o).1 b)
          ((all-AllSay key os).1 c),
  )

append-SomeSays : (xs ys : List Value) → SomeSays (xs ++ ys) → SomeSays xs ⊎ SomeSays ys
append-SomeSays [] ys h = inr h
append-SomeSays (x ∷ xs) ys (inl e) = inl (inl e)
append-SomeSays (x ∷ xs) ys (inr h) = elim (append-SomeSays xs ys h) [
  | inl a ↦ inl (inr a)
  | inr b ↦ inr b
]

SomeSays-append : (xs ys : List Value) → SomeSays xs ⊎ SomeSays ys → SomeSays (xs ++ ys)
SomeSays-append [] ys (inl h) = absurd h
SomeSays-append [] ys (inr h) = h
SomeSays-append (x ∷ xs) ys (inl (inl e)) = inl e
SomeSays-append (x ∷ xs) ys (inl (inr h)) = inr (SomeSays-append xs ys (inl h))
SomeSays-append (x ∷ xs) ys (inr h) = inr (SomeSays-append xs ys (inr h))

field-SomeSays : (o : Option Value) → SomeSays (field_values o) → FieldStated o
field-SomeSays none h = h
field-SomeSays (some v) (inl e) = e
field-SomeSays (some v) (inr h) = absurd h

SomeSays-field : (o : Option Value) → FieldStated o → SomeSays (field_values o)
SomeSays-field none h = h
SomeSays-field (some v) h = inl h

-- where nothing contradicts `n`, a value comes of a `usage` that has the field
values-States :
    (key : String) (n : ℕ) (o : Option Value)
    → Says key n o
    → SomeSays (values_of key o)
    → States key o
values-States key n none a h = h
values-States key n (some null) a h = h
values-States key n (some (boolean b)) a h = absurd a
values-States key n (some (number m)) a h = absurd a
values-States key n (some (text t)) a h = absurd a
values-States key n (some (array vs)) a h = absurd a
values-States key n (some (object fs)) a h = field-SomeSays (get fs key) h

States-values : (key : String) (o : Option Value) → States key o → SomeSays (values_of key o)
States-values key none h = absurd h
States-values key (some null) h = absurd h
States-values key (some (boolean b)) h = absurd h
States-values key (some (number m)) h = absurd h
States-values key (some (text t)) h = absurd h
States-values key (some (array vs)) h = absurd h
States-values key (some (object fs)) h = SomeSays-field (get fs key) h

pub all-SomeStates :
    (key : String) (n : ℕ) (os : List (Option Value))
    → AllAgree key n os
    → SomeSays (all_values key os)
    → SomeStates key os
all-SomeStates key n [] a h = h
all-SomeStates key n (o ∷ os) a h = elim (append-SomeSays (values_of key o) (all_values key os) h) [
  | inl x ↦ inl (values-States key n o a.0 x)
  | inr y ↦ inr (all-SomeStates key n os a.1 y)
]

pub SomeStates-all :
    (key : String) (os : List (Option Value)) → SomeStates key os → SomeSays (all_values key os)
SomeStates-all key [] h = h
SomeStates-all key (o ∷ os) (inl h) =
    SomeSays-append (values_of key o) (all_values key os) (inl (States-values key o h))
SomeStates-all key (o ∷ os) (inr h) =
    SomeSays-append (values_of key o) (all_values key os) (inr (SomeStates-all key os h))
