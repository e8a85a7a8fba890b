-- ===== src/Circuit/Persist.antt =====
-- The persisted snapshot of proxy/src/circuit.rs and what a restart makes of it.
use flock.Base.{
  ℕ, ◌+◌, ◌-◌, ◌≤◌, ◌<◌, ◌≡◌, ◌≢◌, refl, ◌↔◌, true, false, some, none, List, [], ◌∷◌, arith,
  from_secs, Option-cases, inl, inr,
}
use flock.Circuit.{
  CircuitBreaker, CircuitSnapshot, opened, Event, allows, succeeds, fails, forces, allow, step, run,
  snapshot, restore,
}

snapshot_lem :
    (cb cb' : CircuitBreaker) (now_unix now : ℕ)
    → restore (snapshot cb) now_unix now ≡ some cb'
    → snapshot cb' ≡ snapshot cb
unfolding snapshot restore
snapshot_lem cb cb' now_unix now e = ground arith

restore-ne-none :
    (snap : CircuitSnapshot) (now_unix now : ℕ)
    → from_secs (now_unix - snap.last_failure_unix) ≤ now
    → restore snap now_unix now ≢ none
unfolding restore
restore-ne-none snap now_unix now h = λ e. ground arith

-- Where the monotonic clock goes back as far as the last failure, a restart does not panic, and
-- the breaker that it restores has the snapshot that was persisted.
pub restore-snapshot :
    (cb : CircuitBreaker) (now_unix now : ℕ)
    → from_secs (now_unix - cb.last_failure_unix) ≤ now
    → (cb' : CircuitBreaker) × (restore (snapshot cb) now_unix now ≡ some cb')
      × (snapshot cb' ≡ snapshot cb)
unfolding snapshot
restore-snapshot cb now_unix now h = elim (Option-cases (restore (snapshot cb) now_unix now)) [
  | inl e ↦ absurd (restore-ne-none (snapshot cb) now_unix now h e)
  | inr (cb', e) ↦ (cb', e, snapshot_lem cb cb' now_unix now e)
]

-- A breaker restored open admits exactly when 30 s have passed since the last failure by the wall
-- clock, whatever limits it had before.
pub restore-allow :
    (snap : CircuitSnapshot) (now_unix now : ℕ) (cb : CircuitBreaker)
    → snap.state ≡ 2
    → 0 < snap.last_failure_unix
    → restore snap now_unix now ≡ some cb
    → ((allow cb now).1 ≡ true) ↔ (snap.last_failure_unix + 30 ≤ now_unix)
unfolding restore allow
restore-allow snap now_unix now cb s p e = ground arith

abbrev Unstamped : CircuitBreaker → Type 0
Unstamped cb = (cb.state ≡ opened) × (cb.last_failure ≡ none)

abbrev Unforced : List Event → Type 0
Unforced [] = Unit
Unforced (forces _ _ ∷ es) = ⊥
Unforced (_ ∷ es) = Unforced es

stays_stuck : (cb : CircuitBreaker) (es : List Event) → Unstamped cb → Unforced es → run cb es ≡ cb
unfolding run step
stays_stuck cb [] h u = refl
stays_stuck cb (allows now ∷ es) h u = ground (arith, stays_stuck cb es h u)
stays_stuck cb (succeeds ∷ es) h u = ground (arith, stays_stuck cb es h u)
stays_stuck cb (fails _ _ ∷ es) h u = ground (arith, stays_stuck cb es h u)
stays_stuck cb (forces _ _ ∷ es) h u = absurd u

-- A snapshot of an open breaker whose `last_failure_unix` is 0 restores to a breaker that never
-- admits again, at any time and after any successes and failures, unless an operator forces it.
pub restore_unstamped_stuck :
    (snap : CircuitSnapshot) (now_unix now later : ℕ) (cb : CircuitBreaker) (es : List Event)
    → snap.state ≡ 2
    → snap.last_failure_unix ≡ 0
    → restore snap now_unix now ≡ some cb
    → Unforced es
    → (allow (run cb es) later).1 ≡ false
unfolding restore allow
restore_unstamped_stuck snap now_unix now later cb es s z e u =
    ground (arith, stays_stuck cb es (ground arith, ground arith) u)
