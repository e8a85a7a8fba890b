-- ===== src/Observer/Outcome.antt =====
-- What the observer of proxy/src/observation.rs reports of a response that was cut short.
use flock.Base.{
  ℕ, ◌≡◌, refl, Bool, true, false, not, ◌&&◌, Option, none, List, [], ◌∷◌, map, if◌then◌else◌, All,
}
use flock.Observer.Json.{Value}
use flock.Observer.Usage.{
  UsageObservations, UsageState, unavailable, finish_usage, check_estimate, number_result,
  SeenNumber, number_absent, number_invalid, number_value,
}
use flock.Observer.State.{FinishResult, result_unavailable, SeenFinish, ObservationState}
use flock.Observer.Finish.{
  StreamOutcome, completed, deadline, disconnected, truncated, ResponseObservations,
  unavailable_usage, outcome_usage, finish_entry, finish_state,
}
use flock.Observer.Tokens.{
  IsNoEstimate, number_result-IsNoEstimate, check_part-IsNoEstimate, check_total-IsNoEstimate,
}
use flock.Observer.Sse.{
  SseObserver, unterminated, is_completed, finish, remember_unterminated_indexes,
}

-- none of the token counts is an estimate
pub record Counted (u : UsageObservations) : Type 0 where
  pub cached : IsNoEstimate u.cached_tokens
  pub completion : IsNoEstimate u.completion_tokens
  pub prompt : IsNoEstimate u.prompt_tokens
  pub reasoning : IsNoEstimate u.reasoning_tokens
  pub total : IsNoEstimate u.total_tokens

-- nothing is reported but the token counts that were seen
pub record Withheld (r : ResponseObservations) : Type 0 where
  pub tools : r.tool_calls ≡ unavailable
  pub finishes : All {A = ℕ × FinishResult} (λ e. e.1 ≡ result_unavailable) r.finish_reasons
  pub counted : Counted r.usage

finish_entry-withheld :
    (overflowed : Bool) (xs : List (ℕ × SeenFinish))
    → All {A = ℕ × FinishResult}
        (λ e. e.1 ≡ result_unavailable)
        (map (λ e. (e.0, finish_entry true overflowed e.1)) xs)
finish_entry-withheld overflowed [] = tt
finish_entry-withheld overflowed (x ∷ xs) = (refl, finish_entry-withheld overflowed xs)

unestimated : (c : SeenNumber) → IsNoEstimate (check_estimate (number_result c) none)
unestimated number_absent = tt
unestimated number_invalid = tt
unestimated (number_value n) = tt

finish_usage-Counted : (u : UsageState) → Counted (finish_usage u none)
unfolding finish_usage
finish_usage-Counted u = record {
  cached = check_part-IsNoEstimate u.cached u.prompt;
  completion = unestimated u.completion;
  prompt = number_result-IsNoEstimate u.prompt;
  reasoning = check_part-IsNoEstimate u.reasoning u.completion;
  total = check_total-IsNoEstimate u.prompt u.completion u.total;
}

unavailable_usage-Counted : Counted unavailable_usage
unavailable_usage-Counted = record {
  cached = tt;
  completion = tt;
  prompt = tt;
  reasoning = tt;
  total = tt;
}

outcome_usage-Counted :
    (outcome : StreamOutcome) (s : ObservationState) → Counted (outcome_usage outcome s none)
unfolding finish_usage
outcome_usage-Counted completed s = finish_usage-Counted s.usage
outcome_usage-Counted deadline s = finish_usage-Counted s.usage
outcome_usage-Counted disconnected s = unavailable_usage-Counted
outcome_usage-Counted truncated s = unavailable_usage-Counted

finish_state-Withheld :
    (s : ObservationState) (outcome : StreamOutcome) → Withheld (finish_state s outcome true none)
unfolding finish_state
finish_state-Withheld s outcome = record {
  tools = refl;
  finishes = finish_entry-withheld s.finishes_overflowed s.finishes;
  counted = outcome_usage-Counted outcome s;
}

-- A response that did not complete, or that ended inside an event, has no finish reason, no count
-- of tool calls and, for any of its token counts, no estimate reported, whatever was seen of it.
pub finish-Withheld :
    (parse : List ℕ → Option Value) (o : SseObserver) (outcome : StreamOutcome)
    → is_completed outcome && not (unterminated o) ≡ false
    → Withheld (finish parse o outcome)
unfolding finish
finish-Withheld parse o outcome cut = rw cut (
    finish_state-Withheld
      (if is_completed outcome && unterminated o
        then remember_unterminated_indexes parse o
        else o.state)
      outcome)
