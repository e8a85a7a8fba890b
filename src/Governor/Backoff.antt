-- ===== src/Governor/Backoff.antt =====
-- The drain gap that a worker exhaustion opens in the governor of proxy/src/governor.rs.
use flock.Base.{ℕ, ◌+◌, ◌≤◌, ◌<◌, ◌≡◌, false, Option, none, some, List, [], ◌∷◌, String, arith}
use flock.Governor.Model.{ModelState, admit_state, release_state, exhaust_state, exhaust_backoff}
use flock.Governor.{Governor, entry, admit_at, note_exhausted_at}
use flock.Governor.Frame.{
  Call, asks, drops, exhausts, step_model, run, run_model, entry-run, entry-insert,
}

-- a gap that lasts at least until `d`
abbrev GapUntil : ℕ → Option ℕ → Type 0
GapUntil d none = ⊥
GapUntil d (some b) = d ≤ b

-- every exhaustion is noted at or after `t`
abbrev pub NotedFrom : ℕ → List Call → Type 0
NotedFrom t [] = Unit
NotedFrom t (exhausts _ _ now ∷ cs) = (t ≤ now) × NotedFrom t cs
NotedFrom t (_ ∷ cs) = NotedFrom t cs

admit_keeps_gap :
    (s : ModelState) (ov : Option ℕ) (now : ℕ)
    → (admit_state s ov now).0.blocked_until ≡ s.blocked_until
unfolding admit_state
admit_keeps_gap s ov now = ground arith

exhaust_opens_gap :
    (s : ModelState) (ov : Option ℕ) (now : ℕ)
    → (exhaust_state s ov now).blocked_until ≡ some (now + exhaust_backoff)
unfolding exhaust_state
exhaust_opens_gap s ov now = ground arith

gap_holds :
    (m : String) (t : ℕ) (s : ModelState) (cs : List Call)
    → NotedFrom t cs
    → GapUntil (t + exhaust_backoff) s.blocked_until
    → GapUntil (t + exhaust_backoff) (run_model m s cs).blocked_until
unfolding run_model step_model release_state
gap_holds m t s [] n g = g
gap_holds m t s (asks k ov now ∷ cs) n g =
    gap_holds m t (step_model m s (asks k ov now)) cs n (ground (arith, admit_keeps_gap s ov now))
gap_holds m t s (drops k ∷ cs) n g = gap_holds m t (step_model m s (drops k)) cs n (ground arith)
gap_holds m t s (exhausts k ov now ∷ cs) n g =
    gap_holds m t (step_model m s (exhausts k ov now)) cs n.1
      (ground (arith, exhaust_opens_gap s ov now))

refused_in_gap :
    (d : ℕ) (s : ModelState) (ov : Option ℕ) (now : ℕ)
    → GapUntil d s.blocked_until
    → now < d
    → (admit_state s ov now).1 ≡ false
unfolding admit_state
refused_in_gap d s ov now g l = ground arith

-- For two seconds after a worker exhaustion no request is admitted on the model, pinned or not,
-- whatever else the governor is asked in between, if exhaustions are not noted with an older clock.
pub exhaustion_blocks :
    (gov : Governor) (m : String) (ov ov' : Option ℕ) (t now : ℕ) (cs : List Call)
    → NotedFrom t cs
    → now < t + exhaust_backoff
    → (admit_at (run (note_exhausted_at gov m ov t) cs) m ov' now).1 ≡ false
unfolding admit_at note_exhausted_at
exhaustion_blocks gov m ov ov' t now cs n l =
    refused_in_gap (t + exhaust_backoff) (entry after m) ov' now
      (rw (entry-run (note_exhausted_at gov m ov t) cs m) (gap_holds m t _ cs n noted)) l
  where
    after : Governor
    after = run (note_exhausted_at gov m ov t) cs

    noted : GapUntil (t + exhaust_backoff) (entry (note_exhausted_at gov m ov t) m).blocked_until
    noted = ground (
      arith,
      exhaust_opens_gap (entry gov m) ov t,
      entry-insert gov m m (exhaust_state (entry gov m) ov t),
    )
