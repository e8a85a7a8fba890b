-- ===== src/Observer/Finish.antt =====
-- What an observation comes to in proxy/src/observation.rs.
use flock.Base.{ℕ, Bool, true, false, Option, List, map, if◌then◌else◌, length}
use flock.Observer.Usage.{
  Observation, measured, unavailable, invalid, UsageObservations, finish_usage,
}
use flock.Observer.State.{FinishResult, result_invalid, SeenFinish, finish_result, ObservationState}

pub data StreamOutcome : Type 0 where
  completed : StreamOutcome
  deadline : StreamOutcome
  disconnected : StreamOutcome
  truncated : StreamOutcome

pub record ResponseObservations : Type 0 where
  pub finish_reasons : List (ℕ × FinishResult)
  pub tool_calls : Observation
  pub usage : UsageObservations

abbrev pub unavailable_usage : UsageObservations
unavailable_usage = record {
  cached_tokens = unavailable;
  completion_tokens = unavailable;
  prompt_tokens = unavailable;
  reasoning_tokens = unavailable;
  total_tokens = unavailable;
}

abbrev pub outcome_usage : StreamOutcome → ObservationState → Option ℕ → UsageObservations
unfolding finish_usage
outcome_usage disconnected s estimate = unavailable_usage
outcome_usage truncated s estimate = unavailable_usage
outcome_usage _ s estimate = finish_usage s.usage estimate

abbrev pub finished_tools : ObservationState → Bool → Observation
finished_tools s incomplete =
    if incomplete
    then unavailable
    else (if s.tools_invalid
        then invalid
        else (if s.tools_present
            then (if s.observed_stream
                then measured (length s.tool_pairs)
                else measured s.buffered_tool_calls)
            else unavailable))

abbrev pub finish_entry : Bool → Bool → SeenFinish → FinishResult
finish_entry true overflowed seen = finish_result seen true
finish_entry false true seen = result_invalid
finish_entry false false seen = finish_result seen false

-- `ObservationState::finish`
unfoldable pub finish_state :
    ObservationState → StreamOutcome → Bool → Option ℕ → ResponseObservations
finish_state s outcome incomplete estimate = record {
  finish_reasons = map (λ e. (e.0, finish_entry incomplete s.finishes_overflowed e.1)) s.finishes;
  tool_calls = finished_tools s incomplete;
  usage = outcome_usage outcome s estimate;
}
