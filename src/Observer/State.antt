-- ===== src/Observer/State.antt =====
-- The state of an observation in proxy/src/observation.rs: usage, finish reasons and tool calls.
use flock.Base.{
  ℕ, Bool, true, false, ◌&&◌, ◌||◌, Option, none, some, List, [], ◌∷◌, String, String-discrete, ite,
  ltb, ◌==◌, if◌then◌else◌, length,
}
use flock.Observer.Json.{Value, as_str, is_null}
use flock.Observer.Usage.{UsageState, no_usage}

pub data FinishReason : Type 0 where
  content_filter : FinishReason
  function_call : FinishReason
  reason_length : FinishReason
  other : FinishReason
  stop : FinishReason
  tool_calls_reason : FinishReason

abbrev pub finish_labels : List (String × FinishReason)
finish_labels =
    ("content_filter", content_filter)
    ∷ ("function_call", function_call)
    ∷ ("length", reason_length)
    ∷ ("stop", stop)
    ∷ ("tool_calls", tool_calls_reason)
    ∷ []

-- the reason of a label, or `other`
unfoldable pub reason_of : String → List (String × FinishReason) → FinishReason
reason_of s [] = other
reason_of s ((label, r) ∷ rest) = ite (String-discrete s label) r (reason_of s rest)

-- `FinishReason::metric_label`
abbrev pub metric_label : FinishReason → String
metric_label content_filter = "content_filter"
metric_label function_call = "function_call"
metric_label reason_length = "length"
metric_label other = "other"
metric_label stop = "stop"
metric_label tool_calls_reason = "tool_calls"

-- the derived equality
abbrev pub same_reason : FinishReason → FinishReason → Bool
same_reason content_filter content_filter = true
same_reason function_call function_call = true
same_reason reason_length reason_length = true
same_reason other other = true
same_reason stop stop = true
same_reason tool_calls_reason tool_calls_reason = true
same_reason _ _ = false

pub data SeenFinish : Type 0 where
  finish_absent : SeenFinish
  finish_invalid : SeenFinish
  finish_value : FinishReason → SeenFinish

pub data FinishResult : Type 0 where
  result_measured : FinishReason → FinishResult
  result_unavailable : FinishResult
  result_invalid : FinishResult

abbrev finish_of : Option String → SeenFinish
unfolding reason_of
finish_of none = finish_invalid
finish_of (some s) = finish_value (reason_of s finish_labels)

abbrev pub merge_finish : SeenFinish → SeenFinish → SeenFinish
merge_finish finish_absent next = next
merge_finish (finish_value a) (finish_value b) =
    if same_reason a b then finish_value a else finish_invalid
merge_finish _ _ = finish_invalid

-- `SeenFinish::observe`
unfoldable pub observe_finish : Option Value → SeenFinish → SeenFinish
unfolding finish_of
observe_finish none seen = seen
observe_finish (some v) seen = if is_null v then seen else merge_finish seen (finish_of (as_str v))

-- `SeenFinish::result`
abbrev pub finish_result : SeenFinish → Bool → FinishResult
finish_result seen true = result_unavailable
finish_result finish_absent false = result_unavailable
finish_result finish_invalid false = result_invalid
finish_result (finish_value r) false = result_measured r

abbrev pub max_indexed : ℕ
max_indexed = 128

-- `finishes` is in the order of the indexes, none twice
pub record ObservationState : Type 0 where
  pub finishes : List (ℕ × SeenFinish)
  pub finishes_overflowed : Bool
  pub buffered_tool_calls : ℕ
  pub observed_stream : Bool
  pub tools_invalid : Bool
  pub tools_present : Bool
  pub tool_pairs : List (ℕ × ℕ)
  pub usage : UsageState

abbrev pub empty_state : ObservationState
empty_state = record {
  finishes = [];
  finishes_overflowed = false;
  buffered_tool_calls = 0;
  observed_stream = false;
  tools_invalid = false;
  tools_present = false;
  tool_pairs = [];
  usage = no_usage;
}

unfoldable pub contains_key : ℕ → List (ℕ × SeenFinish) → Bool
contains_key i [] = false
contains_key i ((j, f) ∷ rest) = i == j || contains_key i rest

-- `entry(index).or_default()`, changed by `f`
unfoldable pub update_entry :
    ℕ → (SeenFinish → SeenFinish) → List (ℕ × SeenFinish) → List (ℕ × SeenFinish)
update_entry i f [] = (i, f finish_absent) ∷ []
update_entry i f ((j, seen) ∷ rest) =
    let later = update_entry i f rest in
    if i == j
    then (j, f seen) ∷ rest
    else (if ltb i j then (i, f finish_absent) ∷ (j, seen) ∷ rest else (j, seen) ∷ later)

-- `finish_for`, and what is done with the entry it gives
unfoldable pub with_finish : ObservationState → ℕ → (SeenFinish → SeenFinish) → ObservationState
unfolding contains_key update_entry
with_finish s i f =
    if contains_key i s.finishes || ltb (length s.finishes) max_indexed
    then record s { finishes = update_entry i f s.finishes }
    else record s { finishes_overflowed = true }

unfoldable pub contains_pair : ℕ × ℕ → List (ℕ × ℕ) → Bool
contains_pair p [] = false
contains_pair p (q ∷ rest) = (p.0 == q.0 && p.1 == q.1) || contains_pair p rest

abbrev pub invalid_tools : ObservationState → ObservationState
invalid_tools s = record s { tools_invalid = true }

unfoldable pub remember_tool_pair : ObservationState → ℕ × ℕ → ObservationState
unfolding contains_pair
remember_tool_pair s p =
    if contains_pair p s.tool_pairs
    then s
    else (if ltb (length s.tool_pairs) max_indexed
        then record s { tool_pairs = p ∷ s.tool_pairs }
        else invalid_tools s)
