-- ===== src/Observer/Sse.antt =====
-- The server-sent events of a stream in proxy/src/observation.rs. The decoding of an event's data,
-- `str::from_utf8` and then serde_json, is a parameter.
use flock.Base.{
  ℕ, ◌+◌, ◌-◌, Bool, true, false, not, ◌||◌, ◌&&◌, Option, none, some, List, [], ◌∷◌, ◌++◌, ltb,
  ◌==◌, if◌then◌else◌, length, sat_u64,
}
use flock.Observer.Json.{Value}
use flock.Observer.State.{ObservationState, empty_state}
use flock.Observer.Choices.{observe_stream, observe_body, remember_choice_indexes}
use flock.Observer.Finish.{StreamOutcome, completed, ResponseObservations, finish_state}

abbrev pub max_event_bytes : ℕ
max_event_bytes = 1048576

abbrev pub newline : ℕ
newline = 10

abbrev pub carriage_return : ℕ
carriage_return = 13

-- b"data:"
abbrev pub data_field : List ℕ
data_field = 100 ∷ 97 ∷ 116 ∷ 97 ∷ 58 ∷ []

-- the marker that ends a stream, in brackets
abbrev pub done_marker : List ℕ
done_marker = 91 ∷ 68 ∷ 79 ∷ 78 ∷ 69 ∷ 93 ∷ []

pub record SseObserver : Type 0 where
  pub state : ObservationState
  pub current_data : List ℕ
  pub current_line : List ℕ
  pub discarded_event : Bool
  pub discarded_line_has_content : Bool
  pub discarded_line_ends_cr : Bool
  pub completion_events : ℕ

abbrev pub new_observer : SseObserver
new_observer = record {
  state = empty_state;
  current_data = [];
  current_line = [];
  discarded_event = false;
  discarded_line_has_content = false;
  discarded_line_ends_cr = false;
  completion_events = 0;
}

abbrev pub is_empty_bytes : List ℕ → Bool
is_empty_bytes [] = true
is_empty_bytes (b ∷ bs) = false

unfoldable pub same_bytes : List ℕ → List ℕ → Bool
same_bytes [] [] = true
same_bytes (a ∷ as') (b ∷ bs) = a == b && same_bytes as' bs
same_bytes _ _ = false

-- `strip_prefix`
unfoldable pub strip_prefix : List ℕ → List ℕ → Option (List ℕ)
strip_prefix [] bs = some bs
strip_prefix (p ∷ ps) [] = none
strip_prefix (p ∷ ps) (b ∷ bs) = if p == b then strip_prefix ps bs else none

-- the data of a line without the one space that may stand before it
abbrev pub strip_space : List ℕ → List ℕ
strip_space [] = []
strip_space (b ∷ bs) = if b == 32 then bs else b ∷ bs

-- a carriage return at the end is dropped
unfoldable pub pop_cr : List ℕ → List ℕ
pop_cr [] = []
pop_cr (b ∷ []) = if b == carriage_return then [] else b ∷ []
pop_cr (b ∷ c ∷ rest) = b ∷ pop_cr (c ∷ rest)

abbrev pub retained_len : SseObserver → ℕ
retained_len o = length o.current_data + length o.current_line

-- an event too long is given up
abbrev pub discard : SseObserver → SseObserver
discard o = record o {
  current_data = [];
  current_line = [];
  discarded_event = true;
  discarded_line_has_content = true;
  discarded_line_ends_cr = false;
}

-- a byte of an event that is given up
abbrev pub skip_byte : SseObserver → ℕ → SseObserver
skip_byte o b =
    if b == carriage_return
    then record o {
      discarded_line_has_content = o.discarded_line_has_content || o.discarded_line_ends_cr;
      discarded_line_ends_cr = true;
    }
    else record o { discarded_line_has_content = true; discarded_line_ends_cr = false }

-- the end of a line of an event that is given up
abbrev pub skip_line : SseObserver → SseObserver
skip_line o = record o {
  current_line = [];
  discarded_event = o.discarded_line_has_content;
  discarded_line_has_content = false;
  discarded_line_ends_cr = false;
}

abbrev pub separator : List ℕ → ℕ
separator [] = 0
separator (b ∷ bs) = 1

abbrev pub separated : List ℕ → List ℕ
separated [] = []
separated (b ∷ bs) = (b ∷ bs) ++ newline ∷ []

-- the data of a `data:` line is added to the event's
unfoldable pub add_data : SseObserver → List ℕ → SseObserver
add_data o data' =
    if ltb (max_event_bytes - length o.current_data) (length data' + separator o.current_data)
    then discard o
    else record o { current_data = separated o.current_data ++ data'; current_line = [] }

-- a line, by what follows `data:` in it
unfoldable pub data_line : SseObserver → Option (List ℕ) → SseObserver
unfolding add_data
data_line o none = record o { current_line = [] }
data_line o (some d) = add_data o (strip_space d)

-- a line that is not empty
unfoldable pub finish_field : SseObserver → SseObserver
unfolding data_line strip_prefix
finish_field o = data_line o (strip_prefix data_field o.current_line)

-- an event, by the value that its data is
unfoldable pub observe_event : SseObserver → Option Value → SseObserver
unfolding observe_stream
observe_event o none = o
observe_event o (some v) =
    let (s, counted) = observe_stream o.state v in
    record o {
      state = s;
      completion_events =
          if counted then sat_u64 (o.completion_events + 1) else o.completion_events;
    }

unfoldable pub remember_value : ObservationState → Option Value → ObservationState
unfolding remember_choice_indexes
remember_value s none = s
remember_value s (some v) = remember_choice_indexes s v

unfoldable pub observe_value : Option Value → ObservationState
unfolding observe_body
observe_value none = empty_state
observe_value (some v) = observe_body empty_state v

abbrev pub unterminated : SseObserver → Bool
unterminated o =
    o.discarded_event || not (is_empty_bytes o.current_data) || not (is_empty_bytes o.current_line)

abbrev pub is_completed : StreamOutcome → Bool
is_completed completed = true
is_completed _ = false

module _ (parse : List ℕ → Option Value) where
  -- the state and the count after the data of an event
  unfoldable pub classify_data : SseObserver → SseObserver
  unfolding observe_event same_bytes
  classify_data o =
      if same_bytes o.current_data done_marker then o else observe_event o (parse o.current_data)

  unfoldable pub classify_event : SseObserver → SseObserver
  unfolding classify_data
  classify_event o = record (classify_data o) { current_data = []; current_line = [] }

  -- the end of a line that is kept, its carriage return dropped
  unfoldable pub finish_kept : SseObserver → SseObserver
  unfolding classify_event finish_field
  finish_kept o = if is_empty_bytes o.current_line then classify_event o else finish_field o

  unfoldable pub finish_line : SseObserver → SseObserver
  unfolding finish_kept pop_cr
  finish_line o =
      if o.discarded_event
      then skip_line o
      else finish_kept (record o { current_line = pop_cr o.current_line })

  unfoldable pub push_byte : SseObserver → ℕ → SseObserver
  unfolding finish_line
  push_byte o b =
      if b == newline
      then finish_line o
      else (if o.discarded_event
          then skip_byte o b
          else (if retained_len o == max_event_bytes
              then discard o
              else record o { current_line = o.current_line ++ b ∷ [] }))

  -- `SseObserver::push`
  unfoldable pub push : SseObserver → List ℕ → SseObserver
  unfolding push_byte
  push o [] = o
  push o (b ∷ bs) = push (push_byte o b) bs

  remember_line : ObservationState → Option (List ℕ) → ObservationState
  unfolding remember_value
  remember_line s none = s
  remember_line s (some d) = remember_value s (parse (strip_space d))

  unfoldable pub remember_unterminated_indexes : SseObserver → ObservationState
  unfolding remember_line remember_value strip_prefix
  remember_unterminated_indexes o =
      remember_line (remember_value o.state (parse o.current_data))
        (strip_prefix data_field o.current_line)

  -- `SseObserver::finish`
  unfoldable pub finish : SseObserver → StreamOutcome → ResponseObservations
  unfolding remember_unterminated_indexes finish_state
  finish o outcome =
      let clean : Bool = is_completed outcome && not (unterminated o) in
      finish_state
        (if is_completed outcome && unterminated o
          then remember_unterminated_indexes o
          else o.state)
        outcome (not clean) (if clean then some o.completion_events else none)

  -- the free function `observe_buffered`
  unfoldable pub observe_buffered : List ℕ → ResponseObservations
  unfolding observe_value finish_state
  observe_buffered body = finish_state (observe_value (parse body)) completed false none
