-- ===== src/Governor.antt =====
-- proxy/src/governor.rs: the per-model concurrency gate. `Instant::now()` and `unix_now()` are
-- arguments; the mutex makes each method one step.
pub mod Model
pub mod Frame
pub mod Permits
pub mod Backoff
pub mod Growth
pub mod Persist
mod Tests
use flock.Base.{
  ℕ, suc, ◌+◌, ◌-◌, ◌/◌, ◌≡◌, Bool, true, false, ◌&&◌, Option, none, some, List, [], ◌∷◌, String,
  leb, ltb, if◌then◌else◌, max, usize, sat_u64, from_secs, as_secs, before, ◌==◌, ite, find, insert,
  String-discrete,
}
use Model.{ModelState, default_state, admit_state, release_state, exhaust_state}

-- the map behind the mutex
abbrev pub Governor : Type 0
Governor = List (String × ModelState)

-- `entry(model).or_default()`
abbrev pub or_default : Option ModelState → ModelState
or_default none = default_state
or_default (some s) = s

unfoldable pub entry : Governor → String → ModelState
entry gov model = or_default (find String-discrete model gov)

-- `true`: a permit is returned
unfoldable pub admit_at : Governor → String → Option ℕ → ℕ → Governor × Bool
unfolding entry
admit_at gov model override_limit now =
    let (s, admitted) = admit_state (entry gov model) override_limit now in
    (insert String-discrete model s gov, admitted)

-- what dropping a `ModelPermit` does
unfoldable pub release : Governor → String → Governor
release gov model = elim (find String-discrete model gov) [
  | none ↦ gov
  | some s ↦ insert String-discrete model (release_state s) gov
]

unfoldable pub note_exhausted_at : Governor → String → Option ℕ → ℕ → Governor
unfolding entry
note_exhausted_at gov model override_limit now =
    insert String-discrete model (exhaust_state (entry gov model) override_limit now) gov
