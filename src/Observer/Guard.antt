-- ===== src/Observer/Guard.antt =====
-- The tool calls counted in a buffered body of proxy/src/observation.rs are substance of it.
use flock.Base.{
  ℕ, suc, ◌≡◌, refl, true, false, Option, none, some, List, arith, Bool-cases, inl, inr, ◌∙◌, ◌≢◌,
}
use flock.Observer.Json.{
  Value, array, object, Values, no_values, value_and, Fields, get, get_value, opt_u64,
}
use flock.Observer.Usage.{measured, no_usage, observe_usage}
use flock.Observer.State.{ObservationState, SeenFinish, empty_state, observe_finish, with_finish}
use flock.Observer.Choices.{
  count_values, buffered_calls, buffered_message, buffered_choice_at, buffered_choice,
  buffered_choices, buffered_body, observe_body,
}
use flock.Observer.Finish.{finish_state, finished_tools}
use flock.Observer.Sse.{observe_value, observe_buffered}
use flock.Observer.Substance.{
  calls_tools, part_has_substance, choices_have_substance, body_has_substance, value_has_substance,
  has_substance,
}

-- without substance nothing is counted
buffered_calls-hollow :
    (s : ObservationState) (calls : ℕ) (o : Option Value)
    → calls_tools o ≡ false
    → (buffered_calls s calls o).1 ≡ calls
unfolding buffered_calls count_values
buffered_calls-hollow s calls none h = refl
buffered_calls-hollow s calls (some (array no_values)) h = ground arith
buffered_calls-hollow s calls (some (array (value_and v vs))) h = absurd (ground (arith, h))
buffered_calls-hollow s calls (some _) h = refl

buffered_message-hollow :
    (s : ObservationState) (calls : ℕ) (o : Option Value)
    → part_has_substance o ≡ false
    → (buffered_message s calls o).1 ≡ calls
unfolding buffered_message get_value part_has_substance
buffered_message-hollow s calls none h = refl
buffered_message-hollow s calls (some (object message)) h =
    buffered_calls-hollow s calls (get message "tool_calls") (ground (arith, h))
buffered_message-hollow s calls (some _) h = refl

buffered_choice_at-hollow :
    (s : ObservationState) (calls : ℕ) (choice : Fields) (o : Option ℕ)
    → part_has_substance (get choice "message") ≡ false
    → (buffered_choice_at s calls choice o).1 ≡ calls
unfolding buffered_choice_at
buffered_choice_at-hollow s calls choice none h = refl
buffered_choice_at-hollow s calls choice (some i) h =
    buffered_message-hollow (with_finish s i (observe_finish (get choice "finish_reason"))) calls
      (get choice "message") h

buffered_choice-hollow :
    (s : ObservationState) (calls : ℕ) (v : Value)
    → part_has_substance (get_value v "message") ≡ false
    → (buffered_choice s calls v).1 ≡ calls
unfolding buffered_choice get_value
buffered_choice-hollow s calls (object choice) h =
    buffered_choice_at-hollow s calls choice (opt_u64 (get choice "index")) h
buffered_choice-hollow s calls _ h = refl

buffered_choices-hollow :
    (s : ObservationState) (calls : ℕ) (vs : Values)
    → choices_have_substance vs ≡ false
    → (buffered_choices s calls vs).1 ≡ calls
unfolding buffered_choices choices_have_substance
buffered_choices-hollow s calls no_values h = refl
buffered_choices-hollow s calls (value_and v rest) h =
    buffered_choices-hollow (buffered_choice s calls v).0 (buffered_choice s calls v).1 rest
      (ground (arith, h))
    ∙ buffered_choice-hollow s calls v (ground (arith, h))

-- a buffered body is not a stream
with_finish-observed :
    (s : ObservationState) (i : ℕ) (f : SeenFinish → SeenFinish)
    → (with_finish s i f).observed_stream ≡ s.observed_stream
unfolding with_finish
with_finish-observed s i f = ground arith

buffered_calls-observed :
    (s : ObservationState) (calls : ℕ) (o : Option Value)
    → (buffered_calls s calls o).0.observed_stream ≡ s.observed_stream
unfolding buffered_calls
buffered_calls-observed s calls none = refl
buffered_calls-observed s calls (some (array vs)) = ground arith
buffered_calls-observed s calls (some _) = refl

buffered_message-observed :
    (s : ObservationState) (calls : ℕ) (o : Option Value)
    → (buffered_message s calls o).0.observed_stream ≡ s.observed_stream
unfolding buffered_message
buffered_message-observed s calls none = refl
buffered_message-observed s calls (some (object message)) =
    buffered_calls-observed s calls (get message "tool_calls")
buffered_message-observed s calls (some _) = refl

buffered_choice_at-observed :
    (s : ObservationState) (calls : ℕ) (choice : Fields) (o : Option ℕ)
    → (buffered_choice_at s calls choice o).0.observed_stream ≡ s.observed_stream
unfolding buffered_choice_at
buffered_choice_at-observed s calls choice none = refl
buffered_choice_at-observed s calls choice (some i) =
    buffered_message-observed (with_finish s i (observe_finish (get choice "finish_reason"))) calls
      (get choice "message")
    ∙ with_finish-observed s i (observe_finish (get choice "finish_reason"))

buffered_choice-observed :
    (s : ObservationState) (calls : ℕ) (v : Value)
    → (buffered_choice s calls v).0.observed_stream ≡ s.observed_stream
unfolding buffered_choice
buffered_choice-observed s calls (object choice) =
    buffered_choice_at-observed s calls choice (opt_u64 (get choice "index"))
buffered_choice-observed s calls _ = refl

buffered_choices-observed :
    (s : ObservationState) (calls : ℕ) (vs : Values)
    → (buffered_choices s calls vs).0.observed_stream ≡ s.observed_stream
unfolding buffered_choices
buffered_choices-observed s calls no_values = refl
buffered_choices-observed s calls (value_and v rest) =
    buffered_choices-observed (buffered_choice s calls v).0 (buffered_choice s calls v).1 rest
    ∙ buffered_choice-observed s calls v

-- no tool calls are counted of a state that counts none
finished_tools_none :
    (s : ObservationState) (n : ℕ)
    → s.observed_stream ≡ false
    → s.buffered_tool_calls ≡ 0
    → finished_tools s false ≢ measured (suc n)
finished_tools_none s n o z e = ground (arith, o, z, e)

buffered_body-hollow :
    (s : ObservationState) (o : Option Value) (n : ℕ)
    → s.observed_stream ≡ false
    → body_has_substance o ≡ false
    → finished_tools (buffered_body s o) false ≢ measured (suc n)
unfolding buffered_body body_has_substance
buffered_body-hollow s none n k h = absurd (ground (arith, h))
buffered_body-hollow s (some (array vs)) n k h =
    let t : ObservationState = record s { tools_present = true } in
    let r = buffered_choices t 0 vs in
    finished_tools_none (record (r.0) { buffered_tool_calls = r.1 }) n
      (buffered_choices-observed t 0 vs ∙ k) (buffered_choices-hollow t 0 vs h)
buffered_body-hollow s (some _) n k h = absurd (ground (arith, h))

observe_value-hollow :
    (o : Option Value) (n : ℕ)
    → value_has_substance o ≡ false
    → finished_tools (observe_value o) false ≢ measured (suc n)
unfolding observe_value observe_body value_has_substance
observe_value-hollow none n h = absurd (ground (arith, h))
observe_value-hollow (some v) n h =
    buffered_body-hollow
      (record empty_state { usage = observe_usage no_usage (get_value v "usage") })
      (get_value v "choices") n refl h

-- A buffered body of which a tool call is counted has substance: the empty-completion guard never
-- turns away a response whose observation reports a positive number of tool calls.
pub counted-has_substance :
    (parse : List ℕ → Option Value) (body : List ℕ) (n : ℕ)
    → (observe_buffered parse body).tool_calls ≡ measured (suc n)
    → has_substance parse body ≡ true
unfolding observe_buffered has_substance finish_state
counted-has_substance parse body n e = elim (Bool-cases (value_has_substance (parse body))) [
  | inl t ↦ t
  | inr f ↦ absurd (observe_value-hollow (parse body) n f e)
]
