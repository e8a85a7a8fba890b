-- ===== src/Governor/Frame.antt =====
-- The calls of the governor of proxy/src/governor.rs, on the map and on the entry of one model.
use flock.Base.{
  ℕ, ◌≡◌, refl, Option, List, [], ◌∷◌, String, arith, ite, insert, String-discrete, find-insert,
}
use flock.Governor.Model.{ModelState, admit_state, release_state, exhaust_state}
use flock.Governor.{Governor, entry, admit_at, release, note_exhausted_at}

-- a call of the governor, with the instant at which it reads the clock
pub data Call : Type 0 where
  asks : String → Option ℕ → ℕ → Call
  drops : String → Call
  exhausts : String → Option ℕ → ℕ → Call

unfoldable pub step : Governor → Call → Governor
step gov (asks model ov now) = (admit_at gov model ov now).0
step gov (drops model) = release gov model
step gov (exhausts model ov now) = note_exhausted_at gov model ov now

unfoldable pub run : Governor → List Call → Governor
run gov [] = gov
run gov (c ∷ cs) = run (step gov c) cs

-- what a call does to the entry of model `m`
unfoldable pub step_model : String → ModelState → Call → ModelState
step_model m s (asks model ov now) = ite (String-discrete model m) (admit_state s ov now).0 s
step_model m s (drops model) = ite (String-discrete model m) (release_state s) s
step_model m s (exhausts model ov now) = ite (String-discrete model m) (exhaust_state s ov now) s

unfoldable pub run_model : String → ModelState → List Call → ModelState
run_model m s [] = s
run_model m s (c ∷ cs) = run_model m (step_model m s c) cs

pub entry-insert :
    (gov : Governor) (k m : String) (s : ModelState)
    → entry (insert String-discrete k s gov) m ≡ ite (String-discrete k m) s (entry gov m)
unfolding entry
entry-insert gov k m s = ground (arith, find-insert String-discrete k m s gov)

pub entry-release :
    (gov : Governor) (k m : String)
    → entry (release gov k) m
      ≡ ite (String-discrete k m) (release_state (entry gov k)) (entry gov m)
unfolding entry release release_state
entry-release gov k m =
    ground (arith, find-insert String-discrete k m (release_state (entry gov k)) gov)

-- the map, one model at a time
pub entry-step :
    (gov : Governor) (c : Call) (m : String) → entry (step gov c) m ≡ step_model m (entry gov m) c
unfolding step step_model admit_at note_exhausted_at
entry-step gov (asks k ov now) m =
    ground (arith, entry-insert gov k m (admit_state (entry gov k) ov now).0)
entry-step gov (drops k) m = ground (arith, entry-release gov k m)
entry-step gov (exhausts k ov now) m =
    ground (arith, entry-insert gov k m (exhaust_state (entry gov k) ov now))

pub entry-run :
    (gov : Governor) (cs : List Call) (m : String)
    → entry (run gov cs) m ≡ run_model m (entry gov m) cs
unfolding run run_model
entry-run gov [] m = refl
entry-run gov (c ∷ cs) m = ground (arith, entry-run (step gov c) cs m, entry-step gov c m)
