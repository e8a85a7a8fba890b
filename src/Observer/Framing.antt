-- ===== src/Observer/Framing.antt =====
-- The framing of the stream observer of proxy/src/observation.rs against a list of events.
use flock.Base.{
  ℕ, ◌+◌, ◌≤◌, ◌<◌, ◌≡◌, ◌≢◌, refl, Bool, true, false, Option, none, some, List, [], ◌∷◌, ◌++◌,
  arith, if◌then◌else◌, length, length-append, All, Bool-cases, append-nil, append_assoc, ap, sym,
  ◌∙◌, sat_u64, inl, inr,
}
use flock.Observer.Json.{Value}
use flock.Observer.State.{ObservationState}
use flock.Observer.Choices.{observe_stream}
use flock.Observer.Sse.{
  max_event_bytes, newline, carriage_return, SseObserver, new_observer, pop_cr, same_bytes,
  add_data, data_line, observe_event, finish_field, strip_prefix, data_field, done_marker,
  classify_data, classify_event, finish_kept, finish_line, push_byte, push,
}

-- an observer between two events
abbrev pub between : ObservationState × ℕ → SseObserver
between p = record new_observer { state = p.0; completion_events = p.1 }

-- an observer in the middle of a line, and one after a line of data
abbrev at_line : ObservationState × ℕ → List ℕ → SseObserver
at_line p line = record (between p) { current_line = line }

abbrev at_data : ObservationState × ℕ → List ℕ → SseObserver
at_data p data' = record (between p) { current_data = data' }

abbrev pub end_of_line : Bool → List ℕ
end_of_line true = carriage_return ∷ newline ∷ []
end_of_line false = newline ∷ []

-- an event of one line of data, with either end of line
abbrev pub frame : Bool → List ℕ → List ℕ
frame crlf payload = data_field ++ 32 ∷ payload ++ (end_of_line crlf ++ end_of_line crlf)

abbrev pub frames : List (Bool × List ℕ) → List ℕ
frames [] = []
frames ((crlf, payload) ∷ rest) = frame crlf payload ++ frames rest

-- one line, that does not end in a carriage return and fits the observer
abbrev pub Fits : List ℕ → Type 0
Fits payload =
    All (λ b. b ≢ newline) payload
    × (pop_cr payload ≡ payload)
    × (length payload + 7 ≤ max_event_bytes)

-- what an event does to the state and the count of events
abbrev deliver_value : ObservationState × ℕ → Option Value → ObservationState × ℕ
deliver_value (s, n) none = (s, n)
deliver_value (s, n) (some v) =
    ((observe_stream s v).0, if (observe_stream s v).1 then sat_u64 (n + 1) else n)

pop_cr-cons :
    (b : ℕ) (bs : List ℕ) → b ≢ carriage_return → pop_cr bs ≡ bs → pop_cr (b ∷ bs) ≡ b ∷ bs
unfolding pop_cr
pop_cr-cons b [] h e = ground (arith, h)
pop_cr-cons b (c ∷ bs) h e = ap (λ x. b ∷ x) e

pop_cr-append : (bs : List ℕ) → pop_cr (bs ++ carriage_return ∷ []) ≡ bs
unfolding pop_cr
pop_cr-append [] = refl
pop_cr-append (b ∷ []) = refl
pop_cr-append (b ∷ c ∷ bs) = ap (λ x. b ∷ x) (pop_cr-append (c ∷ bs))

module _ (parse : List ℕ → Option Value) where
  unfoldable pub deliver : ObservationState × ℕ → List ℕ → ObservationState × ℕ
  deliver p payload = if same_bytes payload done_marker then p else deliver_value p (parse payload)

  unfoldable pub deliver_all : ObservationState × ℕ → List (Bool × List ℕ) → ObservationState × ℕ
  unfolding deliver
  deliver_all p [] = p
  deliver_all p ((crlf, payload) ∷ rest) = deliver_all (deliver p payload) rest

  push-append :
      (o : SseObserver) (xs ys : List ℕ) → push parse o (xs ++ ys) ≡ push parse (push parse o xs) ys
  unfolding push
  push-append o [] ys = refl
  push-append o (x ∷ xs) ys = push-append (push_byte parse o x) xs ys

  push_byte-kept :
      (p : ObservationState × ℕ) (line : List ℕ) (b : ℕ)
      → b ≢ newline
      → length line < max_event_bytes
      → push_byte parse (at_line p line) b ≡ at_line p (line ++ b ∷ [])
  unfolding push_byte
  push_byte-kept p line b h f = ground (arith, h, f)

  push_line :
      (p : ObservationState × ℕ) (line bs : List ℕ)
      → All (λ b. b ≢ newline) bs
      → length line + length bs ≤ max_event_bytes
      → push parse (at_line p line) bs ≡ at_line p (line ++ bs)
  unfolding push
  push_line p line [] h f = ap (at_line p) (sym (append-nil line))
  push_line p line (b ∷ bs) h f =
      let step = push_byte-kept p line b h.0 (omega (arith, f)) in
      rw step (
        push_line p (line ++ b ∷ []) bs h.1 (omega (arith, f, length-append line (b ∷ [])))
        ∙ ap (at_line p) (append_assoc line (b ∷ []) bs))

  -- the end of a line of data
  finish_kept-data :
      (p : ObservationState × ℕ) (payload : List ℕ)
      → length payload ≤ max_event_bytes
      → finish_kept parse (at_line p (data_field ++ 32 ∷ payload)) ≡ at_data p payload
  unfolding finish_kept finish_field data_line add_data strip_prefix
  finish_kept-data p payload h = ground (arith, h)

  -- the end of an event
  observe_event-data :
      (p : ObservationState × ℕ) (payload : List ℕ) (v : Option Value)
      → record (observe_event (at_data p payload) v) { current_data = []; current_line = [] }
        ≡ between (deliver_value p v)
  unfolding observe_event
  observe_event-data p payload none = refl
  observe_event-data p payload (some v) = refl

  classify_event-data :
      (p : ObservationState × ℕ) (payload : List ℕ)
      → classify_event parse (at_data p payload) ≡ between (deliver p payload)
  unfolding classify_event classify_data deliver
  classify_event-data p payload = elim (Bool-cases (same_bytes payload done_marker)) [
    | inl t ↦ rw t refl
    | inr f ↦ rw f (observe_event-data p payload (parse payload))
  ]

  push_byte-newline :
      (p : ObservationState × ℕ) (d line : List ℕ)
      → push_byte parse (record (at_line p line) { current_data = d }) newline
        ≡ finish_kept parse (record (at_line p (pop_cr line)) { current_data = d })
  unfolding push_byte finish_line
  push_byte-newline p d line = refl

  push-end_of_line :
      (crlf : Bool) (p : ObservationState × ℕ) (line : List ℕ)
      → pop_cr line ≡ line
      → length line < max_event_bytes
      → push parse (at_line p line) (end_of_line crlf) ≡ finish_kept parse (at_line p line)
  unfolding push
  push-end_of_line true p line e f =
      ap (λ o. push_byte parse o newline)
        (push_byte-kept p line carriage_return (λ q. ground (arith, q)) f)
      ∙ push_byte-newline p [] (line ++ carriage_return ∷ [])
      ∙ ap (λ l. finish_kept parse (at_line p l)) (pop_cr-append line)
  push-end_of_line false p line e f =
      push_byte-newline p [] line ∙ ap (λ l. finish_kept parse (at_line p l)) e

  push_byte-cr :
      (p : ObservationState × ℕ) (payload : List ℕ)
      → length payload < max_event_bytes
      → push_byte parse (at_data p payload) carriage_return
        ≡ record (at_data p payload) { current_line = carriage_return ∷ [] }
  unfolding push_byte
  push_byte-cr p payload f = ground (arith, f)

  finish_kept-blank :
      (p : ObservationState × ℕ) (payload : List ℕ)
      → finish_kept parse (at_data p payload) ≡ classify_event parse (at_data p payload)
  unfolding finish_kept
  finish_kept-blank p payload = refl

  push-blank :
      (crlf : Bool) (p : ObservationState × ℕ) (payload : List ℕ)
      → length payload < max_event_bytes
      → push parse (at_data p payload) (end_of_line crlf) ≡ classify_event parse (at_data p payload)
  unfolding push pop_cr
  push-blank true p payload f =
      ap (λ o. push_byte parse o newline) (push_byte-cr p payload f)
      ∙ push_byte-newline p payload (carriage_return ∷ [])
      ∙ finish_kept-blank p payload
  push-blank false p payload f = push_byte-newline p payload [] ∙ finish_kept-blank p payload

  data_line-bytes :
      (payload : List ℕ)
      → All (λ b. b ≢ newline) payload
      → All (λ b. b ≢ newline) (data_field ++ 32 ∷ payload)
  data_line-bytes payload h = (
    λ e. ground (arith, e),
    (
      λ e. ground (arith, e),
      (
        λ e. ground (arith, e),
        (λ e. ground (arith, e), (λ e. ground (arith, e), (λ e. ground (arith, e), h))),
      ),
    ),
  )

  pop_cr-data_line :
      (payload : List ℕ)
      → pop_cr payload ≡ payload
      → pop_cr (data_field ++ 32 ∷ payload) ≡ data_field ++ 32 ∷ payload
  unfolding pop_cr
  pop_cr-data_line payload e =
      ap (λ x. data_field ++ x) (pop_cr-cons 32 payload (λ q. ground (arith, q)) e)

  push-frame :
      (crlf : Bool) (p : ObservationState × ℕ) (payload : List ℕ)
      → Fits payload
      → push parse (between p) (frame crlf payload) ≡ between (deliver p payload)
  push-frame crlf p payload (h, e, f) =
      push-append (between p) (data_field ++ 32 ∷ payload) (end_of_line crlf ++ end_of_line crlf)
      ∙ ap (λ o. push parse o (end_of_line crlf ++ end_of_line crlf))
          (push_line p [] (data_field ++ 32 ∷ payload) (data_line-bytes payload h)
            (omega (arith, f)))
      ∙ push-append (at_line p (data_field ++ 32 ∷ payload)) (end_of_line crlf) (end_of_line crlf)
      ∙ ap (λ o. push parse o (end_of_line crlf))
          (push-end_of_line crlf p (data_field ++ 32 ∷ payload) (pop_cr-data_line payload e)
              (omega (arith, f))
            ∙ finish_kept-data p payload (omega (arith, f)))
      ∙ push-blank crlf p payload (omega (arith, f))
      ∙ classify_event-data p payload

  -- A stream of events, each of one `data:` line that fits the observer, is observed as the list of
  -- the events' data: the bytes pushed leave the state and the count that come of delivering the
  -- payloads one after another, whichever of the two ends of line each event uses, and the observer
  -- ready for the next event.
  pub push-frames :
      (p : ObservationState × ℕ) (es : List (Bool × List ℕ))
      → All (λ e. Fits e.1) es
      → push parse (between p) (frames es) ≡ between (deliver_all p es)
  unfolding push deliver_all
  push-frames p [] h = refl
  push-frames p ((crlf, payload) ∷ rest) h =
      push-append (between p) (frame crlf payload) (frames rest)
      ∙ ap (λ o. push parse o (frames rest)) (push-frame crlf p payload h.0)
      ∙ push-frames (deliver p payload) rest h.1
