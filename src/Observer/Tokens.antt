-- ===== src/Observer/Tokens.antt =====
-- The token counts that proxy/src/observation.rs reports: their consistency, and what they stand for.
use flock.Base.{
  ℕ, ◌+◌, ◌≤◌, ◌<◌, ◌≡◌, refl, inl, inr, Option, none, some, arith, leb, ltb, u64_max, Bool-cases,
}
use flock.Observer.Usage.{
  Observation, measured, estimated, UsageObservations, SeenNumber, number_absent, number_invalid,
  number_value, number_result, UsageState, check_total, check_part, check_estimate, finish_usage,
}

-- a part that was measured has a whole that was measured and is no less
abbrev pub IsPart : Observation → Observation → Type 0
IsPart (measured n) (measured whole) = n ≤ whole
IsPart (measured n) _ = ⊥
IsPart _ _ = Unit

-- a total is no less than its parts, which add up in 64 bits
abbrev pub IsTotal : Observation → Observation → Observation → Type 0
IsTotal (measured p) (measured c) (measured t) = (p + c ≤ t) × (p + c ≤ u64_max)
IsTotal _ _ _ = Unit

-- an estimate is the one given, and positive
abbrev pub IsEstimate : Option ℕ → Observation → Type 0
IsEstimate estimate (estimated n) = (estimate ≡ some n) × (0 < n)
IsEstimate estimate _ = Unit

abbrev pub IsNoEstimate : Observation → Type 0
IsNoEstimate (estimated n) = ⊥
IsNoEstimate _ = Unit

pub record Consistent (estimate : Option ℕ) (u : UsageObservations) : Type 0 where
  pub cached : IsPart u.cached_tokens u.prompt_tokens
  pub reasoning : IsPart u.reasoning_tokens u.completion_tokens
  pub total : IsTotal u.prompt_tokens u.completion_tokens u.total_tokens
  pub completion : IsEstimate estimate u.completion_tokens
  pub prompt : IsNoEstimate u.prompt_tokens
  pub cached_counted : IsNoEstimate u.cached_tokens
  pub reasoning_counted : IsNoEstimate u.reasoning_tokens
  pub total_counted : IsNoEstimate u.total_tokens

check_part-IsPart :
    (part whole : SeenNumber)
    → IsPart (check_part (number_result part) (number_result whole)) (number_result whole)
check_part-IsPart number_absent whole = tt
check_part-IsPart number_invalid whole = tt
check_part-IsPart (number_value n) number_absent = tt
check_part-IsPart (number_value n) number_invalid = tt
check_part-IsPart (number_value n) (number_value w) = elim (Bool-cases (leb n w)) [
  | inl t ↦ rw t (ground (arith, t))
  | inr f ↦ rw f tt
]

-- the same against the whole that is reported, which may be an estimate
check_part_reported :
    (part whole : SeenNumber) (estimate : Option ℕ)
    → IsPart
        (check_part (number_result part) (number_result whole))
        (check_estimate (number_result whole) estimate)
check_part_reported number_absent whole estimate = tt
check_part_reported number_invalid whole estimate = tt
check_part_reported (number_value n) number_absent estimate = tt
check_part_reported (number_value n) number_invalid estimate = tt
check_part_reported (number_value n) (number_value w) none =
    check_part-IsPart (number_value n) (number_value w)
check_part_reported (number_value n) (number_value w) (some m) =
    check_part-IsPart (number_value n) (number_value w)

check_total-IsTotal :
    (p c t : SeenNumber) (estimate : Option ℕ)
    → IsTotal
        (number_result p)
        (check_estimate (number_result c) estimate)
        (check_total (number_result p) (number_result c) (number_result t))
check_total-IsTotal number_absent c t estimate = tt
check_total-IsTotal number_invalid c t estimate = tt
check_total-IsTotal (number_value p) number_absent t none = tt
check_total-IsTotal (number_value p) number_absent t (some n) = elim (Bool-cases (ltb 0 n)) [
  | inl y ↦ rw y tt
  | inr f ↦ rw f tt
]
check_total-IsTotal (number_value p) number_invalid t estimate = tt
check_total-IsTotal (number_value p) (number_value c) number_absent estimate =
    elim (Bool-cases (ltb u64_max (p + c))) [ inl y ↦ rw y tt | inr f ↦ rw f tt ]
check_total-IsTotal (number_value p) (number_value c) number_invalid estimate =
    elim (Bool-cases (ltb u64_max (p + c))) [ inl y ↦ rw y tt | inr f ↦ rw f tt ]
check_total-IsTotal (number_value p) (number_value c) (number_value t) estimate =
    elim (Bool-cases (ltb u64_max (p + c))) [
      | inl y ↦ rw y tt
      | inr f ↦ elim (Bool-cases (ltb t (p + c))) [
        | inl z ↦ rw (f, z) tt
        | inr g ↦ rw (f, g) (ground (arith, g), ground (arith, f))
      ]
    ]

check_estimate-IsEstimate :
    (c : SeenNumber) (estimate : Option ℕ)
    → IsEstimate estimate (check_estimate (number_result c) estimate)
check_estimate-IsEstimate number_absent none = tt
check_estimate-IsEstimate number_absent (some n) = elim (Bool-cases (ltb 0 n)) [
  | inl y ↦ rw y (refl, ground (arith, y))
  | inr f ↦ rw f tt
]
check_estimate-IsEstimate number_invalid estimate = tt
check_estimate-IsEstimate (number_value n) estimate = tt

pub number_result-IsNoEstimate : (p : SeenNumber) → IsNoEstimate (number_result p)
number_result-IsNoEstimate number_absent = tt
number_result-IsNoEstimate number_invalid = tt
number_result-IsNoEstimate (number_value n) = tt

pub check_part-IsNoEstimate :
    (part whole : SeenNumber) → IsNoEstimate (check_part (number_result part) (number_result whole))
check_part-IsNoEstimate number_absent whole = tt
check_part-IsNoEstimate number_invalid whole = tt
check_part-IsNoEstimate (number_value n) number_absent = tt
check_part-IsNoEstimate (number_value n) number_invalid = tt
check_part-IsNoEstimate (number_value n) (number_value w) = elim (Bool-cases (leb n w)) [
  | inl t ↦ rw t tt
  | inr f ↦ rw f tt
]

pub check_total-IsNoEstimate :
    (p c t : SeenNumber)
    → IsNoEstimate (check_total (number_result p) (number_result c) (number_result t))
check_total-IsNoEstimate number_absent c t = number_result-IsNoEstimate t
check_total-IsNoEstimate number_invalid c t = number_result-IsNoEstimate t
check_total-IsNoEstimate (number_value p) number_absent t = number_result-IsNoEstimate t
check_total-IsNoEstimate (number_value p) number_invalid t = number_result-IsNoEstimate t
check_total-IsNoEstimate (number_value p) (number_value c) number_absent =
    elim (Bool-cases (ltb u64_max (p + c))) [ inl y ↦ rw y tt | inr f ↦ rw f tt ]
check_total-IsNoEstimate (number_value p) (number_value c) number_invalid =
    elim (Bool-cases (ltb u64_max (p + c))) [ inl y ↦ rw y tt | inr f ↦ rw f tt ]
check_total-IsNoEstimate (number_value p) (number_value c) (number_value t) =
    elim (Bool-cases (ltb u64_max (p + c))) [
      | inl y ↦ rw y tt
      | inr f ↦ elim (Bool-cases (ltb t (p + c))) [ inl z ↦ rw (f, z) tt | inr g ↦ rw (f, g) tt ]
    ]

-- Whatever counts were seen, those reported are consistent: cached tokens are measured only within
-- a measured prompt, reasoning tokens only within a measured completion, a measured total is no
-- less than a measured prompt and completion together, which add up in 64 bits, and only the
-- completion is ever an estimate, which is then the one given and positive.
pub finish_usage-Consistent :
    (u : UsageState) (estimate : Option ℕ) → Consistent estimate (finish_usage u estimate)
unfolding finish_usage
finish_usage-Consistent u estimate = record {
  cached = check_part-IsPart u.cached u.prompt;
  reasoning = check_part_reported u.reasoning u.completion estimate;
  total = check_total-IsTotal u.prompt u.completion u.total estimate;
  completion = check_estimate-IsEstimate u.completion estimate;
  prompt = number_result-IsNoEstimate u.prompt;
  cached_counted = check_part-IsNoEstimate u.cached u.prompt;
  reasoning_counted = check_part-IsNoEstimate u.reasoning u.completion;
  total_counted = check_total-IsNoEstimate u.prompt u.completion u.total;
}
