-- ===== src/Observer/Choices.antt =====
-- The choices of a response in proxy/src/observation.rs: one event of a stream, and a buffered body.
use flock.Base.{
  ℕ, suc, ◌+◌, Bool, true, false, not, ◌&&◌, Option, none, some, ltb, if◌then◌else◌, u64_max,
}
use flock.Observer.Json.{
  Value, array, object, Values, no_values, value_and, Fields, get, get_value, is_null, opt_u64,
}
use flock.Observer.Usage.{observe_usage}
use flock.Observer.State.{
  ObservationState, observe_finish, with_finish, invalid_tools, remember_tool_pair,
}

-- a tool call, by its index
unfoldable pub stream_call_at : ObservationState → ℕ → Option ℕ → ObservationState
unfolding remember_tool_pair
stream_call_at s index none = invalid_tools s
stream_call_at s index (some tool_index) = remember_tool_pair s (index, tool_index)

unfoldable pub stream_tool_call : ObservationState → ℕ → Value → ObservationState
unfolding stream_call_at get
stream_tool_call s index (object call) = stream_call_at s index (opt_u64 (get call "index"))
stream_tool_call s index _ = invalid_tools s

unfoldable pub stream_tool_calls : ObservationState → ℕ → Values → ObservationState
unfolding stream_tool_call
stream_tool_calls s index no_values = s
stream_tool_calls s index (value_and v rest) =
    stream_tool_calls (stream_tool_call s index v) index rest

unfoldable pub stream_tools : ObservationState → ℕ → Option Value → ObservationState
unfolding stream_tool_calls
stream_tools s index none = s
stream_tools s index (some (array vs)) = stream_tool_calls s index vs
stream_tools s index (some _) = invalid_tools s

unfoldable pub stream_delta : ObservationState → ℕ → Option Value → ObservationState
unfolding stream_tools get
stream_delta s index none = s
stream_delta s index (some (object delta)) = stream_tools s index (get delta "tool_calls")
stream_delta s index (some _) = invalid_tools s

-- no finish reason, or null
abbrev is_unfinished : Option Value → Bool
is_unfinished none = true
is_unfinished (some v) = is_null v

-- the state after a choice, by its index, and whether the event stays countable
unfoldable pub stream_choice_at : ObservationState → Fields → Option ℕ → ObservationState × Bool
unfolding stream_delta with_finish observe_finish get
stream_choice_at s choice none = (invalid_tools s, false)
stream_choice_at s choice (some index) =
    let finish = get choice "finish_reason" in
    (
      stream_delta (with_finish s index (observe_finish finish)) index (get choice "delta"),
      is_unfinished finish,
    )

unfoldable pub stream_choice : ObservationState → Value → ObservationState × Bool
unfolding stream_choice_at get
stream_choice s (object choice) = stream_choice_at s choice (opt_u64 (get choice "index"))
stream_choice s _ = (invalid_tools s, false)

unfoldable pub stream_choices : ObservationState → Bool → Values → ObservationState × Bool
unfolding stream_choice
stream_choices s countable no_values = (s, countable)
stream_choices s countable (value_and v rest) =
    let (s', kept) = stream_choice s v in stream_choices s' (countable && kept) rest

abbrev pub is_empty_array : Values → Bool
is_empty_array no_values = true
is_empty_array (value_and v rest) = false

-- the value under "choices", if there is one
unfoldable pub stream_body : ObservationState → Option Value → ObservationState × Bool
unfolding stream_choices
stream_body s none = (s, false)
stream_body s (some (array vs)) =
    stream_choices (record s { tools_present = true }) (not (is_empty_array vs)) vs
stream_body s (some _) = (invalid_tools s, false)

-- `observe_stream`; the Boolean is whether the event counts for the estimate
unfoldable pub observe_stream : ObservationState → Value → ObservationState × Bool
unfolding stream_body observe_usage get_value
observe_stream s v =
    stream_body
      (record s { observed_stream = true; usage = observe_usage s.usage (get_value v "usage") })
      (get_value v "choices")

unfoldable pub count_values : Values → ℕ
count_values no_values = 0
count_values (value_and v rest) = suc (count_values rest)

-- the tool calls of a message, added to those counted before
unfoldable pub buffered_calls : ObservationState → ℕ → Option Value → ObservationState × ℕ
unfolding count_values
buffered_calls s calls none = (s, calls)
buffered_calls s calls (some (array vs)) =
    if ltb u64_max (calls + count_values vs)
    then (invalid_tools s, calls)
    else (s, calls + count_values vs)
buffered_calls s calls (some _) = (invalid_tools s, calls)

unfoldable pub buffered_message : ObservationState → ℕ → Option Value → ObservationState × ℕ
unfolding buffered_calls get
buffered_message s calls none = (s, calls)
buffered_message s calls (some (object message)) = buffered_calls s calls (get message "tool_calls")
buffered_message s calls (some _) = (invalid_tools s, calls)

unfoldable pub buffered_choice_at : ObservationState → ℕ → Fields → Option ℕ → ObservationState × ℕ
unfolding buffered_message with_finish observe_finish get
buffered_choice_at s calls choice none = (invalid_tools s, calls)
buffered_choice_at s calls choice (some index) =
    buffered_message (with_finish s index (observe_finish (get choice "finish_reason"))) calls
      (get choice "message")

unfoldable pub buffered_choice : ObservationState → ℕ → Value → ObservationState × ℕ
unfolding buffered_choice_at get
buffered_choice s calls (object choice) =
    buffered_choice_at s calls choice (opt_u64 (get choice "index"))
buffered_choice s calls _ = (invalid_tools s, calls)

unfoldable pub buffered_choices : ObservationState → ℕ → Values → ObservationState × ℕ
unfolding buffered_choice
buffered_choices s calls no_values = (s, calls)
buffered_choices s calls (value_and v rest) =
    let (s', calls') = buffered_choice s calls v in buffered_choices s' calls' rest

unfoldable pub buffered_body : ObservationState → Option Value → ObservationState
unfolding buffered_choices
buffered_body s none = s
buffered_body s (some (array vs)) =
    let (t, calls) = buffered_choices (record s { tools_present = true }) 0 vs in
    record t { buffered_tool_calls = calls }
buffered_body s (some _) = invalid_tools s

-- `ObservationState::observe_buffered`
unfoldable pub observe_body : ObservationState → Value → ObservationState
unfolding buffered_body observe_usage get_value
observe_body s v =
    buffered_body (record s { usage = observe_usage s.usage (get_value v "usage") })
      (get_value v "choices")

unfoldable pub remember_at : ObservationState → Option ℕ → ObservationState
unfolding with_finish
remember_at s none = s
remember_at s (some index) = with_finish s index (λ seen. seen)

unfoldable pub remember_choice : ObservationState → Value → ObservationState
unfolding remember_at get
remember_choice s (object choice) = remember_at s (opt_u64 (get choice "index"))
remember_choice s _ = s

unfoldable pub remember_choices : ObservationState → Values → ObservationState
unfolding remember_choice
remember_choices s no_values = s
remember_choices s (value_and v rest) = remember_choices (remember_choice s v) rest

unfoldable pub remember_body : ObservationState → Option Value → ObservationState
unfolding remember_choices
remember_body s (some (array vs)) = remember_choices s vs
remember_body s _ = s

-- `remember_choice_indexes`
unfoldable pub remember_choice_indexes : ObservationState → Value → ObservationState
unfolding remember_body get_value
remember_choice_indexes s v = remember_body s (get_value v "choices")
