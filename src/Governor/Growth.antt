-- ===== src/Governor/Growth.antt =====
-- The pacing of the adaptive cap of proxy/src/governor.rs: halved by an exhaustion, grown by one a
-- minute at most, and dissolved after a long clean period.
use flock.Base.{
  ℕ, ◌+◌, ◌-◌, ◌*◌, ◌/◌, ◌≤◌, ◌<◌, ◌^◌, ◌≡◌, refl, ◌⊎◌, inl, inr, dec_lt, Option, none, some, List,
  [], ◌∷◌, String, arith, max,
}
use flock.Governor.Model.{
  ModelState, adapt, admit_adapted, admit_state, release_state, exhaust_state, grow_interval,
  dissolve_after,
}
use flock.Governor.{Governor, entry, admit_at, note_exhausted_at}
use flock.Governor.Frame.{
  Call, asks, drops, exhausts, step, step_model, run, run_model, entry-step, entry-run,
  entry-insert,
}

-- no exhaustion is noted, and no admission is asked after `d`
abbrev pub CleanUntil : ℕ → List Call → Type 0
CleanUntil d [] = Unit
CleanUntil d (asks _ _ now ∷ cs) = (now ≤ d) × CleanUntil d cs
CleanUntil d (drops _ ∷ cs) = CleanUntil d cs
CleanUntil d (exhausts _ _ _ ∷ cs) = ⊥

-- the last change of a cap that has grown from `l` at `t`, by one for each `grow_interval` at most
abbrev PacedAt : ℕ → ℕ → ℕ → ℕ → Option ℕ → Type 0
PacedAt l t d limit none = ⊥
PacedAt l t d limit (some a) =
    (t ≤ a) × (a ≤ max t d) × (limit * grow_interval + t ≤ l * grow_interval + a)

abbrev Paced : ℕ → ℕ → ℕ → ModelState → Type 0
Paced l t d s = (s.limit ≡ 0) ⊎ PacedAt l t d s.limit s.last_adjusted

adapt-Paced :
    (l t d : ℕ) (s : ModelState) (ov : Option ℕ) (now : ℕ)
    → now ≤ d
    → Paced l t d s
    → Paced l t d (adapt s ov now)
unfolding adapt
adapt-Paced l t d s (some n) now h p = p
adapt-Paced l t d s none now h p = ground arith

-- past the lifecycle, an admission counts a request and changes no pace
admit_adapted_pace :
    (s : ModelState) (ov : Option ℕ) (now : ℕ)
    → let s' = (admit_adapted s ov now).0 in
      (s'.limit ≡ s.limit)
      × (s'.last_adjusted ≡ s.last_adjusted)
      × (s'.last_exhausted ≡ s.last_exhausted)
unfolding admit_adapted
admit_adapted_pace s ov now = (ground arith, ground arith, ground arith)

admit-Paced :
    (l t d : ℕ) (s : ModelState) (ov : Option ℕ) (now : ℕ)
    → now ≤ d
    → Paced l t d s
    → Paced l t d (admit_state s ov now).0
unfolding admit_state
admit-Paced l t d s ov now h p =
    ground (arith, adapt-Paced l t d s ov now h p, admit_adapted_pace (adapt s ov now) ov now)

run-Paced :
    (m : String) (l t d : ℕ) (s : ModelState) (cs : List Call)
    → CleanUntil d cs
    → Paced l t d s
    → Paced l t d (run_model m s cs)
unfolding run_model step_model release_state
run-Paced m l t d s [] c p = p
run-Paced m l t d s (asks k ov now ∷ cs) c p =
    run-Paced m l t d (step_model m s (asks k ov now)) cs c.1
      (ground (arith, admit-Paced l t d s ov now c.0 p))
run-Paced m l t d s (drops k ∷ cs) c p =
    run-Paced m l t d (step_model m s (drops k)) cs c (ground arith)
run-Paced m l t d s (exhausts k ov now ∷ cs) c p = absurd c

exhaust_starts :
    (gov : Governor) (m : String) (t d : ℕ)
    → let s = entry (note_exhausted_at gov m none t) m in
      Paced (max ((entry gov m).inflight / 2) 1) t d s × (s.last_exhausted ≡ some t)
unfolding note_exhausted_at exhaust_state
exhaust_starts gov m t d = ground (arith, entry-insert gov m m (exhaust_state (entry gov m) none t))

admit_keeps_exhausted :
    (s : ModelState) (ov : Option ℕ) (now : ℕ)
    → (admit_state s ov now).0.last_exhausted ≡ s.last_exhausted
unfolding admit_state
admit_keeps_exhausted s ov now = ground arith

run_keeps_exhausted :
    (m : String) (d : ℕ) (s : ModelState) (cs : List Call)
    → CleanUntil d cs
    → (run_model m s cs).last_exhausted ≡ s.last_exhausted
unfolding run_model step_model release_state
run_keeps_exhausted m d s [] c = refl
run_keeps_exhausted m d s (asks k ov now ∷ cs) c = ground (
  arith,
  run_keeps_exhausted m d (step_model m s (asks k ov now)) cs c.1,
  admit_keeps_exhausted s ov now,
)
run_keeps_exhausted m d s (drops k ∷ cs) c =
    ground (arith, run_keeps_exhausted m d (step_model m s (drops k)) cs c)
run_keeps_exhausted m d s (exhausts k ov now ∷ cs) c = absurd c

-- before the clean period is over, a cap that was `l` is not below it
abbrev Held : ℕ → ℕ → ModelState → Type 0
Held l t s = (s.last_exhausted ≡ some t) × (l ≤ s.limit)

admit-Held :
    (l t d : ℕ) (s : ModelState) (ov : Option ℕ) (now : ℕ)
    → now ≤ d
    → d < t + dissolve_after
    → t ≤ d
    → l ≤ 2 ^ 63
    → Paced l t d s
    → Held l t s
    → Held l t (adapt s ov now)
unfolding adapt
admit-Held l t d s (some n) now h b o f p k = k
admit-Held l t d s none now h b o f p k = ground arith

run-Held :
    (m : String) (l t d : ℕ) (s : ModelState) (cs : List Call)
    → CleanUntil d cs
    → d < t + dissolve_after
    → t ≤ d
    → l ≤ 2 ^ 63
    → Paced l t d s
    → Held l t s
    → Held l t (run_model m s cs)
unfolding run_model step_model release_state admit_state
run-Held m l t d s [] c b o f p k = k
run-Held m l t d s (asks j ov now ∷ cs) c b o f p k =
    run-Held m l t d (step_model m s (asks j ov now)) cs c.1 b o f
      (ground (arith, admit-Paced l t d s ov now c.0 p))
      (ground (
        arith,
        admit-Held l t d s ov now c.0 b o f p k,
        admit_adapted_pace (adapt s ov now) ov now,
      ))
run-Held m l t d s (drops j ∷ cs) c b o f p k =
    run-Held m l t d (step_model m s (drops j)) cs c b o f (ground arith) (ground arith)
run-Held m l t d s (exhausts j ov now ∷ cs) c b o f p k = absurd c

exhaust_limit_starts :
    (gov : Governor) (m : String) (t : ℕ)
    → (entry (note_exhausted_at gov m none t) m).limit ≡ max ((entry gov m).inflight / 2) 1
unfolding note_exhausted_at exhaust_state
exhaust_limit_starts gov m t =
    ground (arith, entry-insert gov m m (exhaust_state (entry gov m) none t))

-- An exhaustion at `t` caps an unpinned model at half of the requests in flight, of which there are
-- fewer than 2 ^ 64, and at one at least. Until the next exhaustion the cap that is found at a later time `d` has grown by at most
-- one a minute, and within half an hour of the exhaustion it is not below where it started.
pub limit_grows_slowly :
    (gov : Governor) (m : String) (t d : ℕ) (cs : List Call)
    → t ≤ d
    → CleanUntil d cs
    → (entry gov m).inflight < 2 ^ 64
    → let start = max ((entry gov m).inflight / 2) 1 in
      let later = (entry (run (note_exhausted_at gov m none t) cs) m).limit in
      ((entry (note_exhausted_at gov m none t) m).limit ≡ start)
      × (later ≤ start + (d - t) / grow_interval)
      × ((t + dissolve_after ≤ d) ⊎ (start ≤ later))
limit_grows_slowly gov m t d cs o c f =
    let start = max ((entry gov m).inflight / 2) 1 in
    let s = entry (note_exhausted_at gov m none t) m in
    let (paced, quiet) = exhaust_starts gov m t d in
    let starts = exhaust_limit_starts gov m t in
    let is = entry-run (note_exhausted_at gov m none t) cs m in
    (
      starts,
      ground (arith, is, run-Paced m start t d s cs c paced),
      elim (dec_lt d (t + dissolve_after)) [
        | yes b ↦
            let held =
              run-Held m start t d s cs c b o (ground (arith, f)) paced
                (quiet, ground (arith, starts)) in
            inr (ground (arith, is, held.1))
        | no b ↦ inl (omega (arith, b))
      ],
    )

admit_dissolves :
    (s : ModelState) (t now : ℕ)
    → s.last_exhausted ≡ some t
    → t + dissolve_after ≤ now
    → (admit_state s none now).0.limit ≡ 0
unfolding admit_state
admit_dissolves s t now e h = ground arith

-- The first unpinned request half an hour or more after the last exhaustion finds the model
-- ungoverned, whatever was admitted in between.
pub admit_after_clean_dissolves :
    (gov : Governor) (m : String) (t d now : ℕ) (cs : List Call)
    → CleanUntil d cs
    → t + dissolve_after ≤ now
    → (entry (admit_at (run (note_exhausted_at gov m none t) cs) m none now).0 m).limit ≡ 0
unfolding step step_model
admit_after_clean_dissolves gov m t d now cs c h =
    ground
      (arith, entry-step after (asks m none now) m, admit_dissolves (entry after m) t now quiet h)
  where
    after : Governor
    after = run (note_exhausted_at gov m none t) cs

    quiet : (entry after m).last_exhausted ≡ some t
    quiet = ground (
      arith,
      entry-run (note_exhausted_at gov m none t) cs m,
      run_keeps_exhausted m d (entry (note_exhausted_at gov m none t) m) cs c,
      exhaust_starts gov m t d,
    )
