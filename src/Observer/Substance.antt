-- ===== src/Observer/Substance.antt =====
-- The check of proxy/src/observation.rs for a buffered body without any generated content, and the
-- metric pairs of the token counts.
use flock.Base.{ℕ, Bool, true, false, not, ◌||◌, Option, none, some, String, List, [], ◌∷◌}
use flock.Observer.Json.{Value, text, array, Values, no_values, value_and, get_value}
use flock.Observer.Usage.{Observation, measured, estimated, unavailable, invalid, UsageObservations}
use flock.Base.{is_blank}
use flock.Observer.Choices.{is_empty_array}

-- a tool call
abbrev pub calls_tools : Option Value → Bool
calls_tools (some (array vs)) = not (is_empty_array vs)
calls_tools _ = false

-- a text that is not blank
unfoldable pub says_something : Option Value → Bool
unfolding is_blank
says_something (some (text s)) = not (is_blank s)
says_something _ = false

-- a message or a delta
unfoldable pub part_has_substance : Option Value → Bool
unfolding get_value says_something
part_has_substance none = false
part_has_substance (some part) =
    calls_tools (get_value part "tool_calls") || says_something (get_value part "content")

unfoldable pub choices_have_substance : Values → Bool
unfolding get_value part_has_substance
choices_have_substance no_values = false
choices_have_substance (value_and choice rest) =
    part_has_substance (get_value choice "message")
    || part_has_substance (get_value choice "delta")
    || choices_have_substance rest

unfoldable pub body_has_substance : Option Value → Bool
unfolding choices_have_substance
body_has_substance (some (array vs)) = choices_have_substance vs
body_has_substance _ = true

unfoldable pub value_has_substance : Option Value → Bool
unfolding get_value body_has_substance
value_has_substance none = true
value_has_substance (some v) = body_has_substance (get_value v "choices")

-- the free function; the decoding of the body is a parameter
unfoldable pub has_substance : (List ℕ → Option Value) → List ℕ → Bool
unfolding value_has_substance
has_substance parse body = value_has_substance (parse body)

abbrev observation_result : Observation → String
observation_result (measured n) = "measured"
observation_result (estimated n) = "estimated"
observation_result unavailable = "unavailable"
observation_result invalid = "invalid"

-- field and result
abbrev usage_observation_metrics : UsageObservations → List (String × String)
usage_observation_metrics u =
    ("prompt_tokens", observation_result u.prompt_tokens)
    ∷ ("completion_tokens", observation_result u.completion_tokens)
    ∷ ("total_tokens", observation_result u.total_tokens)
    ∷ ("cached_tokens", observation_result u.cached_tokens)
    ∷ ("reasoning_tokens", observation_result u.reasoning_tokens)
    ∷ []
