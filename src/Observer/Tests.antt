-- ===== src/Observer/Tests.antt =====
-- Runs of the observer of proxy/src/observation.rs, and the theorems at concrete inputs.
use flock.Base.{
  ℕ, ◌≡◌, ◌≢◌, refl, Bool, true, false, Option, none, some, List, [], ◌∷◌, arith, if◌then◌else◌,
  String-discrete,
}
use flock.Observer.Json.{
  Value, null, number, text, array, object, no_values, value_and, no_fields, field_and, get,
  get_value,
}
use flock.Observer.Usage.{
  measured, unavailable, number_value, no_usage, observe_number, observe_usage, finish_usage,
}
use flock.Observer.State.{
  stop, result_measured, reason_of, observe_finish, contains_key, update_entry, with_finish,
  contains_pair, remember_tool_pair, empty_state,
}
use flock.Observer.Choices.{
  stream_call_at, stream_tool_call, stream_tool_calls, stream_tools, stream_delta, stream_choice_at,
  stream_choice, stream_choices, stream_body, observe_stream,
}
use flock.Observer.Finish.{completed, disconnected, finish_state}
use flock.Observer.Sse.{
  new_observer, same_bytes, strip_prefix, pop_cr, add_data, data_line, finish_field, observe_event,
  classify_data, classify_event, finish_kept, finish_line, push_byte, push, finish,
}
use flock.Observer.Tokens.{Consistent, finish_usage-Consistent}
use flock.Observer.Reported.{reported as reported_of}
use flock.Observer.Retained.{Sound, push_new-Sound}
use flock.Observer.Framing.{between, frames, Fits, deliver_all, push-frames}
use flock.Observer.Choices.{
  count_values, buffered_calls, buffered_message, buffered_choice_at, buffered_choice,
  buffered_choices, buffered_body, observe_body,
}
use flock.Observer.Sse.{observe_value, observe_buffered}
use flock.Observer.Substance.{has_substance}
use flock.Observer.Guard.{counted-has_substance}
use flock.Observer.Outcome.{Withheld, finish-Withheld}

-- a chunk that ends choice 0 with a tool call, and counts the tokens
abbrev chunk : Value
chunk = object (
    field_and "usage"
      (object (
        field_and "prompt_tokens" (number (some 7))
          (field_and "completion_tokens" (number (some 3)) no_fields)))
      (field_and "choices"
        (array (
          value_and
            (object (
              field_and "index" (number (some 0)) (
                field_and "finish_reason" (text "stop") (
                  field_and "delta"
                    (object (
                      field_and "tool_calls"
                        (array (
                          value_and (object (field_and "index" (number (some 2)) no_fields))
                            no_values))
                        no_fields))
                    no_fields))))
            no_values))
        no_fields))

-- a decoder that knows the one text "1"
abbrev decode : List ℕ → Option Value
unfolding same_bytes
decode bs = if same_bytes bs (49 ∷ []) then some chunk else none

abbrev events : List (Bool × List ℕ)
events = (true, 49 ∷ []) ∷ (false, 50 ∷ []) ∷ []

reported : finish decode (push decode new_observer (frames events)) completed ≡ record {
  finish_reasons = (0, result_measured stop) ∷ [];
  tool_calls = measured 1;
  usage = record {
    cached_tokens = unavailable;
    completion_tokens = measured 3;
    prompt_tokens = measured 7;
    reasoning_tokens = unavailable;
    total_tokens = unavailable;
  };
}
unfolding finish finish_state finish_usage push push_byte finish_line finish_kept finish_field
    data_line add_data strip_prefix pop_cr classify_event classify_data observe_event same_bytes
    observe_stream stream_body stream_choices stream_choice stream_choice_at stream_delta
    stream_tools stream_tool_calls stream_tool_call stream_call_at with_finish contains_key
    update_entry contains_pair remember_tool_pair observe_finish reason_of observe_usage
    observe_number get get_value String-discrete
reported = refl

push_new-Sound_example : Sound (push decode new_observer (100 ∷ 97 ∷ 10 ∷ 13 ∷ []))
push_new-Sound_example = push_new-Sound decode (100 ∷ 97 ∷ 10 ∷ 13 ∷ [])

Fits-one : (b : ℕ) → b ≢ 10 → b ≢ 13 → Fits (b ∷ [])
unfolding pop_cr
Fits-one b h k = ((h, tt), ground (arith, k), omega arith)

push-frames_example :
    push decode (between (empty_state, 0)) (frames events)
    ≡ between (deliver_all decode (empty_state, 0) events)
push-frames_example =
    push-frames decode (empty_state, 0) events
      (
        Fits-one 49 (λ e. ground (arith, e)) (λ e. ground (arith, e)),
        (Fits-one 50 (λ e. ground (arith, e)) (λ e. ground (arith, e)), tt),
      )

finish_usage-Consistent_example :
    Consistent
      (some 4)
      (finish_usage (record no_usage { cached = number_value 5; prompt = number_value 4 }) (some 4))
finish_usage-Consistent_example =
    finish_usage-Consistent (record no_usage { cached = number_value 5; prompt = number_value 4 })
      (some 4)

-- the `usage` of three events, of which the last counts the prompt alone
abbrev usages : List (Option Value)
usages =
    none
    ∷ some (
        object (
          field_and "prompt_tokens" (number (some 7))
            (field_and "completion_tokens" (number (some 3)) no_fields)))
    ∷ some (object (field_and "prompt_tokens" (number (some 7)) no_fields))
    ∷ []

finish-Withheld_example :
    Withheld (finish decode (push decode new_observer (frames events)) disconnected)
finish-Withheld_example =
    finish-Withheld decode (push decode new_observer (frames events)) disconnected refl

-- a body of one choice with two tool calls
abbrev body_value : Value
body_value = object (
    field_and "choices"
      (array (
        value_and
          (object (
            field_and "index" (number (some 0)) (
              field_and "message"
                (object (
                  field_and "tool_calls" (array (value_and null (value_and null no_values)))
                    no_fields))
                no_fields)))
          no_values))
      no_fields)

counted_two : (observe_buffered (λ bs. some body_value) []).tool_calls ≡ measured 2
unfolding observe_buffered observe_value finish_state observe_body buffered_body buffered_choices
    buffered_choice buffered_choice_at buffered_message buffered_calls count_values with_finish
    contains_key update_entry observe_finish get get_value String-discrete
counted_two = refl

counted-has_substance_example : has_substance (λ bs. some body_value) [] ≡ true
counted-has_substance_example = counted-has_substance (λ bs. some body_value) [] 1 counted_two
