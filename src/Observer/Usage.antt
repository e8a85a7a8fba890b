-- ===== src/Observer/Usage.antt =====
-- The token counts of a response in proxy/src/observation.rs.
use flock.Base.{ℕ, ◌+◌, Option, none, some, String, leb, ltb, ◌==◌, if◌then◌else◌, u64_max}
use flock.Observer.Json.{Value, null, object, Fields, get, as_u64, is_null}

pub data Observation : Type 0 where
  measured : ℕ → Observation
  estimated : ℕ → Observation
  unavailable : Observation
  invalid : Observation

pub record UsageObservations : Type 0 where
  pub cached_tokens : Observation
  pub completion_tokens : Observation
  pub prompt_tokens : Observation
  pub reasoning_tokens : Observation
  pub total_tokens : Observation

pub data SeenNumber : Type 0 where
  number_absent : SeenNumber
  number_invalid : SeenNumber
  number_value : ℕ → SeenNumber

-- what one value says
abbrev pub number_of : Option ℕ → SeenNumber
number_of none = number_invalid
number_of (some n) = number_value n

-- the match on the number seen and the next
abbrev pub merge_number : SeenNumber → SeenNumber → SeenNumber
merge_number number_absent next = next
merge_number (number_value a) (number_value b) = if a == b then number_value a else number_invalid
merge_number _ _ = number_invalid

-- `SeenNumber::observe`
unfoldable pub observe_number : SeenNumber → Option Value → SeenNumber
observe_number seen none = seen
observe_number seen (some v) = if is_null v then seen else merge_number seen (number_of (as_u64 v))

abbrev pub number_result : SeenNumber → Observation
number_result number_absent = unavailable
number_result number_invalid = invalid
number_result (number_value n) = measured n

pub record UsageState : Type 0 where
  pub cached : SeenNumber
  pub completion : SeenNumber
  pub prompt : SeenNumber
  pub reasoning : SeenNumber
  pub total : SeenNumber

abbrev pub no_usage : UsageState
no_usage = record {
  cached = number_absent;
  completion = number_absent;
  prompt = number_absent;
  reasoning = number_absent;
  total = number_absent;
}

abbrev all_invalid : UsageState
all_invalid = record {
  cached = number_invalid;
  completion = number_invalid;
  prompt = number_invalid;
  reasoning = number_invalid;
  total = number_invalid;
}

-- a count inside an object of details
observe_detail : SeenNumber → Option Value → String → SeenNumber
unfolding observe_number get
observe_detail seen none key = seen
observe_detail seen (some null) key = seen
observe_detail seen (some (object details)) key = observe_number seen (get details key)
observe_detail seen (some _) key = number_invalid

observe_fields : UsageState → Fields → UsageState
unfolding observe_number observe_detail get
observe_fields u fs = record {
  cached = observe_detail u.cached (get fs "prompt_tokens_details") "cached_tokens";
  completion = observe_number u.completion (get fs "completion_tokens");
  prompt = observe_number u.prompt (get fs "prompt_tokens");
  reasoning = observe_detail u.reasoning (get fs "completion_tokens_details") "reasoning_tokens";
  total = observe_number u.total (get fs "total_tokens");
}

-- `UsageState::observe`
unfoldable pub observe_usage : UsageState → Option Value → UsageState
unfolding observe_fields
observe_usage u none = u
observe_usage u (some null) = u
observe_usage u (some (object fs)) = observe_fields u fs
observe_usage u (some _) = all_invalid

-- the total against the sum of its parts
abbrev pub check_total : Observation → Observation → Observation → Observation
check_total (measured p) (measured c) (measured t) =
    if ltb u64_max (p + c) then invalid else (if ltb t (p + c) then invalid else measured t)
check_total (measured p) (measured c) total = if ltb u64_max (p + c) then invalid else total
check_total _ _ total = total

-- a part against its whole
abbrev pub check_part : Observation → Observation → Observation
check_part (measured n) (measured parent) = if leb n parent then measured n else invalid
check_part (measured n) _ = invalid
check_part part _ = part

abbrev pub check_estimate : Observation → Option ℕ → Observation
check_estimate unavailable (some n) = if ltb 0 n then estimated n else unavailable
check_estimate completion _ = completion

-- `UsageState::finish`
unfoldable pub finish_usage : UsageState → Option ℕ → UsageObservations
finish_usage u estimate = record {
  cached_tokens = check_part (number_result u.cached) (number_result u.prompt);
  completion_tokens = check_estimate (number_result u.completion) estimate;
  prompt_tokens = number_result u.prompt;
  reasoning_tokens = check_part (number_result u.reasoning) (number_result u.completion);
  total_tokens =
      check_total (number_result u.prompt) (number_result u.completion) (number_result u.total);
}
