-- ===== src/Governor/Tests.antt =====
-- Runs of the governor of proxy/src/governor.rs, and the theorems at concrete inputs.
use flock.Base.{
  ◌+◌, ◌-◌, ◌/◌, ◌≤◌, ◌≡◌, refl, ◌⊎◌, false, none, some, List, [], ◌∷◌, arith, if◌then◌else◌, ltb,
  count, find, insert, String-discrete, from_secs, dec_lt, remove_one,
}
use flock.Governor.Model.{default_state, dissolve_after, admit_state, grow_interval, release_state}
use flock.Governor.{Governor, entry, admit_at, note_exhausted_at, release}
use flock.Governor.Frame.{Call, asks, drops, run}
use flock.Governor.Permits.{fresh, serve, serve_all, cap, inflight-eq-held, held-le-cap}
use flock.Governor.Backoff.{exhaustion_blocks}
use flock.Governor.Growth.{limit_grows_slowly, admit_after_clean_dissolves}
use flock.Governor.Persist.{GovernorSnapshot, restore, snapshot_of, snapshot_of-restore}

-- two requests admitted on one model and one on another, one of the first two given back
abbrev calls : List Call
calls =
    asks "a" none 10
    ∷ asks "b" none 11
    ∷ asks "a" none 12
    ∷ drops "a"
    ∷ drops "a"
    ∷ drops "a"
    ∷ asks "a" none 13
    ∷ []

held_after : (serve_all fresh calls).held ≡ "a" ∷ "b" ∷ []
unfolding serve_all serve admit_at release admit_state release_state find insert count
    String-discrete dec_lt remove_one
held_after = refl

inflight-eq-held_example :
    (entry (serve_all fresh calls).gov "a").inflight
    ≡ count String-discrete "a" (serve_all fresh calls).held
inflight-eq-held_example = inflight-eq-held calls "a" (omega arith)

held-le-cap_example :
    (cap (entry (serve (serve_all fresh calls) (asks "a" (some 2) 20)).gov "a") (some 2) ≡ 0)
    ⊎ (count String-discrete "a" (serve (serve_all fresh calls) (asks "a" (some 2) 20)).held
        ≤ cap (entry (serve (serve_all fresh calls) (asks "a" (some 2) 20)).gov "a") (some 2))
unfolding serve_all serve admit_at release admit_state release_state find insert count
    String-discrete dec_lt remove_one
held-le-cap_example = held-le-cap calls "a" (some 2) 20 (omega arith) refl

exhaustion_blocks_example :
    (admit_at (run (note_exhausted_at [] "a" none 100) (drops "a" ∷ [])) "a" (some 5) 2000000099).1
    ≡ false
exhaustion_blocks_example =
    exhaustion_blocks [] "a" none (some 5) 100 2000000099 (drops "a" ∷ []) tt (omega arith)

-- nine requests in flight
abbrev busy : Governor
busy = ("a", record default_state { inflight = 9 }) ∷ []

abbrev asked : List Call
asked = asks "a" none (from_secs 61) ∷ asks "b" none (from_secs 62) ∷ []

limit_grows_slowly_example :
    let later = (entry (run (note_exhausted_at busy "a" none 100) asked) "a").limit in
    ((entry (note_exhausted_at busy "a" none 100) "a").limit ≡ 4)
    × (later ≤ 4 + (from_secs 62 - 100) / grow_interval)
    × ((100 + dissolve_after ≤ from_secs 62) ⊎ (4 ≤ later))
unfolding entry find String-discrete
limit_grows_slowly_example =
    limit_grows_slowly busy "a" 100 (from_secs 62) asked (omega arith) (omega arith) (omega arith)

admit_after_clean_dissolves_example :
    (entry
      (admit_at (run (note_exhausted_at [] "a" none 100) asked) "a" none (from_secs 1801)).0
      "a").limit
    ≡ 0
admit_after_clean_dissolves_example =
    admit_after_clean_dissolves [] "a" 100 (from_secs 62) (from_secs 1801) asked (omega arith)
      (omega arith)

abbrev persisted : GovernorSnapshot
persisted = record {
  worker_limit = 4;
  last_exhausted_unix = 990;
  last_adjusted_unix = 995;
  blocked_until_unix = 992;
}

abbrev restarted : Governor
restarted =
    (
      "a",
      record {
        limit = 4;
        inflight = 0;
        blocked_until = none;
        last_exhausted = some (from_secs 40);
        last_adjusted = some (from_secs 45);
      },
    )
    ∷ []

snapshot_of-restore_example :
    (snapshot_of (entry restarted "a") (from_secs 50) 1000
      ≡ record persisted { blocked_until_unix = if ltb 1000 992 then 992 else 0 })
    × ((entry restarted "a").inflight ≡ (entry [] "a").inflight)
unfolding restore insert find
snapshot_of-restore_example =
    snapshot_of-restore [] restarted "a" persisted (from_secs 50) 1000 (omega arith) (omega arith)
      (omega arith) (omega arith) refl
