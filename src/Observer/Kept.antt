-- ===== src/Observer/Kept.antt =====
-- The bounds of an observation of proxy/src/observation.rs through its events.
use flock.Base.{ℕ, refl, Bool, true, ◌&&◌, not, Option, none, some}
use flock.Observer.Json.{
  Value, array, object, Values, no_values, value_and, Fields, get, get_value, opt_u64,
}
use flock.Observer.Usage.{observe_usage}
use flock.Observer.State.{ObservationState, observe_finish, with_finish}
use flock.Observer.Choices.{
  stream_call_at, stream_choice_at, stream_body, remember_at, remember_body, stream_tool_call,
  stream_tool_calls, stream_tools, stream_delta, stream_choice, stream_choices, observe_stream,
  is_empty_array, remember_choice, remember_choices, remember_choice_indexes,
}
use flock.Observer.Bounds.{
  Bounded, with_finish-Bounded, Bounded-same, invalid_tools-Bounded, remember_tool_pair-Bounded,
}

stream_call_at-Bounded :
    (s : ObservationState) (i : ℕ) (o : Option ℕ) → Bounded s → Bounded (stream_call_at s i o)
unfolding stream_call_at
stream_call_at-Bounded s i none b = invalid_tools-Bounded s true b
stream_call_at-Bounded s i (some t) b = remember_tool_pair-Bounded s (i, t) b

stream_tool_call-Bounded :
    (s : ObservationState) (i : ℕ) (v : Value) → Bounded s → Bounded (stream_tool_call s i v)
unfolding stream_tool_call
stream_tool_call-Bounded s i (object call) b =
    stream_call_at-Bounded s i (opt_u64 (get call "index")) b
stream_tool_call-Bounded s i _ b = invalid_tools-Bounded s true b

stream_tool_calls-Bounded :
    (s : ObservationState) (i : ℕ) (vs : Values) → Bounded s → Bounded (stream_tool_calls s i vs)
unfolding stream_tool_calls
stream_tool_calls-Bounded s i no_values b = b
stream_tool_calls-Bounded s i (value_and v rest) b =
    stream_tool_calls-Bounded (stream_tool_call s i v) i rest (stream_tool_call-Bounded s i v b)

stream_tools-Bounded :
    (s : ObservationState) (i : ℕ) (v : Option Value) → Bounded s → Bounded (stream_tools s i v)
unfolding stream_tools
stream_tools-Bounded s i none b = b
stream_tools-Bounded s i (some (array vs)) b = stream_tool_calls-Bounded s i vs b
stream_tools-Bounded s i (some _) b = invalid_tools-Bounded s true b

stream_delta-Bounded :
    (s : ObservationState) (i : ℕ) (v : Option Value) → Bounded s → Bounded (stream_delta s i v)
unfolding stream_delta
stream_delta-Bounded s i none b = b
stream_delta-Bounded s i (some (object delta)) b =
    stream_tools-Bounded s i (get delta "tool_calls") b
stream_delta-Bounded s i (some _) b = invalid_tools-Bounded s true b

stream_choice_at-Bounded :
    (s : ObservationState) (choice : Fields) (o : Option ℕ)
    → Bounded s
    → Bounded (stream_choice_at s choice o).0
unfolding stream_choice_at
stream_choice_at-Bounded s choice none b = invalid_tools-Bounded s true b
stream_choice_at-Bounded s choice (some i) b =
    let finish = get choice "finish_reason" in
    stream_delta-Bounded (with_finish s i (observe_finish finish)) i (get choice "delta")
      (with_finish-Bounded s i (observe_finish finish) b)

stream_choice-Bounded :
    (s : ObservationState) (v : Value) → Bounded s → Bounded (stream_choice s v).0
unfolding stream_choice
stream_choice-Bounded s (object choice) b =
    stream_choice_at-Bounded s choice (opt_u64 (get choice "index")) b
stream_choice-Bounded s _ b = invalid_tools-Bounded s true b

stream_choices-Bounded :
    (s : ObservationState) (c : Bool) (vs : Values) → Bounded s → Bounded (stream_choices s c vs).0
unfolding stream_choices
stream_choices-Bounded s c no_values b = b
stream_choices-Bounded s c (value_and v rest) b =
    stream_choices-Bounded (stream_choice s v).0 (c && (stream_choice s v).1) rest
      (stream_choice-Bounded s v b)

stream_body-Bounded :
    (s : ObservationState) (o : Option Value) → Bounded s → Bounded (stream_body s o).0
unfolding stream_body
stream_body-Bounded s none b = b
stream_body-Bounded s (some (array vs)) b =
    stream_choices-Bounded (record s { tools_present = true }) (not (is_empty_array vs)) vs
      (Bounded-same s (record s { tools_present = true }) refl refl b)
stream_body-Bounded s (some _) b = invalid_tools-Bounded s true b

pub observe_stream-Bounded :
    (s : ObservationState) (v : Value) → Bounded s → Bounded (observe_stream s v).0
unfolding observe_stream
observe_stream-Bounded s v b =
    let s' : ObservationState = record s {
      observed_stream = true;
      usage = observe_usage s.usage (get_value v "usage");
    } in
    stream_body-Bounded s' (get_value v "choices") (Bounded-same s s' refl refl b)

remember_at-Bounded : (s : ObservationState) (o : Option ℕ) → Bounded s → Bounded (remember_at s o)
unfolding remember_at
remember_at-Bounded s none b = b
remember_at-Bounded s (some i) b = with_finish-Bounded s i (λ seen. seen) b

remember_choice-Bounded :
    (s : ObservationState) (v : Value) → Bounded s → Bounded (remember_choice s v)
unfolding remember_choice
remember_choice-Bounded s (object choice) b = remember_at-Bounded s (opt_u64 (get choice "index")) b
remember_choice-Bounded s _ b = b

remember_choices-Bounded :
    (s : ObservationState) (vs : Values) → Bounded s → Bounded (remember_choices s vs)
unfolding remember_choices
remember_choices-Bounded s no_values b = b
remember_choices-Bounded s (value_and v rest) b =
    remember_choices-Bounded (remember_choice s v) rest (remember_choice-Bounded s v b)

remember_body-Bounded :
    (s : ObservationState) (o : Option Value) → Bounded s → Bounded (remember_body s o)
unfolding remember_body
remember_body-Bounded s none b = b
remember_body-Bounded s (some (array vs)) b = remember_choices-Bounded s vs b
remember_body-Bounded s (some _) b = b

pub remember_choice_indexes-Bounded :
    (s : ObservationState) (v : Value) → Bounded s → Bounded (remember_choice_indexes s v)
unfolding remember_choice_indexes
remember_choice_indexes-Bounded s v b = remember_body-Bounded s (get_value v "choices") b
