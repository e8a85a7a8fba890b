-- ===== src/Observer/Retained.antt =====
-- What the stream observer of proxy/src/observation.rs holds on to, whatever the upstream sends.
use flock.Base.{
  ℕ, ◌+◌, ◌-◌, ◌≤◌, ◌≡◌, refl, ◌⊎◌, inl, inr, Bool, true, false, Option, none, some, List, [], ◌∷◌,
  ◌++◌, arith, ltb, ◌==◌, if◌then◌else◌, length, length-append, Bool-cases,
}
use flock.Observer.Json.{Value}
use flock.Observer.Bounds.{Bounded}
use flock.Observer.Kept.{observe_stream-Bounded}
use flock.Observer.Sse.{
  max_event_bytes, newline, carriage_return, SseObserver, new_observer, retained_len, discard,
  skip_byte, skip_line, pop_cr, is_empty_bytes, same_bytes, separator, separated, add_data,
  data_line, observe_event, finish_field, strip_prefix, strip_space, data_field, done_marker,
  classify_data, classify_event, finish_kept, finish_line, push_byte, push,
}

-- at most a mebibyte of an event is held, and none of one that was given up
pub record Sound (o : SseObserver) : Type 0 where
  pub bounded : Bounded o.state
  pub fits : retained_len o ≤ max_event_bytes
  pub dropped : (o.discarded_event ≡ false) ⊎ (retained_len o ≡ 0)

length-pop_cr-le : (bs : List ℕ) → length (pop_cr bs) ≤ length bs
unfolding pop_cr
length-pop_cr-le [] = omega arith
length-pop_cr-le (b ∷ []) = ground arith
length-pop_cr-le (b ∷ c ∷ rest) = omega (arith, length-pop_cr-le (c ∷ rest))

length-separated : (bs : List ℕ) → length (separated bs) ≡ length bs + separator bs
length-separated [] = omega arith
length-separated (b ∷ bs) = omega (arith, length-append bs (newline ∷ []))

-- a test, by what it says
if-Sound :
    (b : Bool) (x y : SseObserver)
    → (b ≡ true → Sound x)
    → (b ≡ false → Sound y)
    → Sound (if b then x else y)
if-Sound true x y h k = h refl
if-Sound false x y h k = k refl

discard-Sound : (o : SseObserver) → Bounded o.state → Sound (discard o)
discard-Sound o b = record { bounded = b; fits = omega arith; dropped = inr (omega arith) }

add_data-Sound :
    (o : SseObserver) (d : List ℕ) → o.discarded_event ≡ false → Sound o → Sound (add_data o d)
unfolding add_data
add_data-Sound o d k s =
    elim (Bool-cases
      (ltb (max_event_bytes - length o.current_data) (length d + separator o.current_data))) [
        | inl t ↦ rw t (discard-Sound o s.bounded)
        | inr f ↦ rw f (record {
          bounded = s.bounded;
          fits = ground (
            arith,
            f,
            s.fits,
            length-separated o.current_data,
            length-append (separated o.current_data) d,
          );
          dropped = inl k;
        })
      ]

data_line-Sound :
    (o : SseObserver) (d : Option (List ℕ))
    → o.discarded_event ≡ false
    → Sound o
    → Sound (data_line o d)
unfolding data_line
data_line-Sound o none k s = record {
  bounded = s.bounded;
  fits = omega (arith, s.fits);
  dropped = inl k;
}
data_line-Sound o (some d) k s = add_data-Sound o (strip_space d) k s

finish_field-Sound :
    (o : SseObserver) → o.discarded_event ≡ false → Sound o → Sound (finish_field o)
unfolding finish_field
finish_field-Sound o k s = data_line-Sound o (strip_prefix data_field o.current_line) k s

observe_event-Bounded :
    (o : SseObserver) (v : Option Value) → Bounded o.state → Bounded (observe_event o v).state
unfolding observe_event
observe_event-Bounded o none b = b
observe_event-Bounded o (some v) b = observe_stream-Bounded o.state v b

module _ (parse : List ℕ → Option Value) where
  classify_data-Bounded :
      (o : SseObserver) → Bounded o.state → Bounded (classify_data parse o).state
  unfolding classify_data
  classify_data-Bounded o b = elim (Bool-cases (same_bytes o.current_data done_marker)) [
    | inl t ↦ rw t b
    | inr f ↦ rw f (observe_event-Bounded o (parse o.current_data) b)
  ]

  finish_kept-Sound :
      (o : SseObserver) → o.discarded_event ≡ false → Sound o → Sound (finish_kept parse o)
  unfolding finish_kept classify_event
  finish_kept-Sound o k s = elim (Bool-cases (is_empty_bytes o.current_line)) [
    | inl t ↦ rw t (record {
      bounded = classify_data-Bounded o s.bounded;
      fits = omega arith;
      dropped = inr (omega arith);
    })
    | inr f ↦ rw f (finish_field-Sound o k s)
  ]

  pop_cr-Sound :
      (o : SseObserver) → Sound o → Sound (record o { current_line = pop_cr o.current_line })
  pop_cr-Sound o s = record {
    bounded = s.bounded;
    fits = omega (arith, s.fits, length-pop_cr-le o.current_line);
    dropped = elim s.dropped [
      | inl k ↦ inl k
      | inr z ↦ inr (omega (arith, z, length-pop_cr-le o.current_line))
    ];
  }

  skip_line-Sound : (o : SseObserver) → o.discarded_event ≡ true → Sound o → Sound (skip_line o)
  skip_line-Sound o k s = record {
    bounded = s.bounded;
    fits = omega (arith, s.fits);
    dropped = inr (ground (arith, k, s.dropped));
  }

  finish_line-Sound : (o : SseObserver) → Sound o → Sound (finish_line parse o)
  unfolding finish_line
  finish_line-Sound o s =
      if-Sound o.discarded_event (skip_line o)
        (finish_kept parse (record o { current_line = pop_cr o.current_line }))
        (λ t. skip_line-Sound o t s)
        (λ f.
          finish_kept-Sound (record o { current_line = pop_cr o.current_line }) f
            (pop_cr-Sound o s))

  skip_byte-Sound : (o : SseObserver) (b : ℕ) → Sound o → Sound (skip_byte o b)
  skip_byte-Sound o b s = elim (Bool-cases (b == carriage_return)) [
    | inl t ↦ rw t (record { bounded = s.bounded; fits = s.fits; dropped = s.dropped })
    | inr f ↦ rw f (record { bounded = s.bounded; fits = s.fits; dropped = s.dropped })
  ]

  append-Sound :
      (o : SseObserver) (b : ℕ)
      → o.discarded_event ≡ false
      → (retained_len o == max_event_bytes) ≡ false
      → Sound o
      → Sound (record o { current_line = o.current_line ++ b ∷ [] })
  append-Sound o b k n s = record {
    bounded = s.bounded;
    fits = ground (arith, n, s.fits, length-append o.current_line (b ∷ []));
    dropped = inl k;
  }

  push_byte-Sound : (o : SseObserver) (b : ℕ) → Sound o → Sound (push_byte parse o b)
  unfolding push_byte
  push_byte-Sound o b s =
      let kept = record o { current_line = o.current_line ++ b ∷ [] } in
      let held = if retained_len o == max_event_bytes then discard o else kept in
      if-Sound (b == newline) (finish_line parse o)
        (if o.discarded_event then skip_byte o b else held) (λ t. finish_line-Sound o s)
        (λ n.
          if-Sound o.discarded_event (skip_byte o b) held (λ d. skip_byte-Sound o b s)
            (λ k.
              if-Sound (retained_len o == max_event_bytes) (discard o) kept
                (λ e. discard-Sound o s.bounded) (λ f. append-Sound o b k f s)))

  push-Sound : (o : SseObserver) (bytes : List ℕ) → Sound o → Sound (push parse o bytes)
  unfolding push
  push-Sound o [] s = s
  push-Sound o (b ∷ bs) s = push-Sound (push_byte parse o b) bs (push_byte-Sound o b s)

  -- Whatever bytes an upstream sends, and whatever they decode to, the observer holds at most
  -- 1048576 bytes of an event and none of an event that it gave up; it keeps at most 128 finishes, in
  -- the order of their choices and none twice, and at most 128 tool calls, none twice.
  pub push_new-Sound : (bytes : List ℕ) → Sound (push parse new_observer bytes)
  push_new-Sound bytes = push-Sound new_observer bytes (record {
    bounded = record {
      ordered = tt;
      few_finishes = omega arith;
      distinct = tt;
      few_pairs = omega arith;
    };
    fits = omega arith;
    dropped = inl refl;
  })
