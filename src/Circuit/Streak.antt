-- ===== src/Circuit/Streak.antt =====
-- When a closed breaker of proxy/src/circuit.rs opens: `record_success` and `record_failure` in
-- any order, against a count of the failures since the last success.
use flock.Base.{
  ℕ, suc, ◌≡◌, refl, Bool, false, ◌||◌, List, [], ◌∷◌, arith, leb, if◌then◌else◌, Bool-cases, inl,
  inr,
}
use flock.Circuit.{
  CircuitBreaker, closed, opened, Event, allows, succeeds, fails, forces, step, run,
}
use flock.Circuit.Invariant.{Inv, step-Inv}

-- the failures since the last success, of which there were `n` before these events
abbrev pub streak : ℕ → List Event → ℕ
streak n [] = n
streak n (succeeds ∷ es) = streak 0 es
streak n (fails _ _ ∷ es) = streak (suc n) es
streak n (_ ∷ es) = streak n es

-- some run of failures comes to `m`
abbrev pub reaches : ℕ → ℕ → List Event → Bool
reaches m n [] = false
reaches m n (succeeds ∷ es) = reaches m 0 es
reaches m n (fails _ _ ∷ es) = leb m (suc n) || reaches m (suc n) es
reaches m n (_ ∷ es) = reaches m n es

-- only results of attempts: no admission, no operator
abbrev pub Recorded : List Event → Type 0
Recorded [] = Unit
Recorded (succeeds ∷ es) = Recorded es
Recorded (fails _ _ ∷ es) = Recorded es
Recorded (_ ∷ es) = ⊥

stays_opened :
    (cb : CircuitBreaker) (es : List Event) → Recorded es → cb.state ≡ opened → run cb es ≡ cb
unfolding run step
stays_opened cb [] r o = refl
stays_opened cb (allows now ∷ es) r o = absurd r
stays_opened cb (succeeds ∷ es) r o = ground (arith, stays_opened cb es r o)
stays_opened cb (fails u now ∷ es) r o = ground (arith, stays_opened cb es r o)
stays_opened cb (forces u now ∷ es) r o = absurd r

succeeds_lem :
    (cb : CircuitBreaker)
    → cb.state ≡ closed
    → let cb' = step cb succeeds in
      (cb'.state ≡ closed) × (cb'.max_failures ≡ cb.max_failures) × (cb'.failures ≡ 0)
unfolding step
succeeds_lem cb c = ground arith

fails_lem :
    (cb : CircuitBreaker) (u now : ℕ)
    → Inv cb
    → cb.state ≡ closed
    → let cb' = step cb (fails u now) in
      (cb'.max_failures ≡ cb.max_failures)
      × (cb'.state ≡ (if leb cb.max_failures (suc cb.failures) then opened else closed))
      × (cb'.failures ≡ suc cb.failures)
unfolding step
fails_lem cb u now v c = (ground arith, ground arith, ground arith)

-- From a closed breaker, results of attempts open it exactly when some run of failures, counted
-- from the failures that it holds, comes to `max_failures`. Then `failures` is `max_failures`;
-- while it stays closed, `failures` is the number of failures since the last success.
pub run_opens_iff_streak :
    (cb : CircuitBreaker) (es : List Event)
    → Inv cb
    → cb.state ≡ closed
    → Recorded es
    → ((run cb es).state ≡ (if reaches cb.max_failures cb.failures es then opened else closed))
      × ((run cb es).failures ≡ (
          if reaches cb.max_failures cb.failures es
          then cb.max_failures
          else streak cb.failures es))
unfolding run
run_opens_iff_streak cb [] v c r = (c, refl)
run_opens_iff_streak cb (allows now ∷ es) v c r = absurd r
run_opens_iff_streak cb (succeeds ∷ es) v c r = ground (
  arith,
  succeeds_lem cb c,
  run_opens_iff_streak (step cb succeeds) es (step-Inv cb succeeds v) (succeeds_lem cb c).0 r,
)
run_opens_iff_streak cb (fails u now ∷ es) v c r =
    elim (Bool-cases (leb cb.max_failures (suc cb.failures))) [
      | inl trips ↦ ground (
        arith,
        fails_lem cb u now v c,
        v.closed_below c,
        stays_opened (step cb (fails u now)) es r,
      )
      | inr below ↦ ground (
        arith,
        fails_lem cb u now v c,
        run_opens_iff_streak (step cb (fails u now)) es (step-Inv cb (fails u now) v)
            (ground (arith, fails_lem cb u now v c)) r,
      )
    ]
run_opens_iff_streak cb (forces u now ∷ es) v c r = absurd r
