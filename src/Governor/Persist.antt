-- ===== src/Governor/Persist.antt =====
-- The persistence hooks of proxy/src/governor.rs: snapshots in Unix seconds, and their restoration.
use flock.Base.{
  ℕ, ◌+◌, ◌-◌, ◌≤◌, ◌<◌, ◌≡◌, refl, inl, inr, Option, none, some, List, String, arith, ltb, ◌==◌,
  if◌then◌else◌, map, keep, sat_u64, u64_max, from_secs, as_secs, before, after, ◌>>=◌, insert,
  String-discrete, Option-cases,
}
use flock.Governor.Model.{ModelState}
use flock.Governor.{Governor, entry}
use flock.Governor.Frame.{entry-insert}

pub record GovernorSnapshot : Type 0 where
  pub worker_limit : ℕ
  pub last_exhausted_unix : ℕ
  pub last_adjusted_unix : ℕ
  pub blocked_until_unix : ℕ

-- the closure `ago`
abbrev ago : ℕ → ℕ → Option ℕ → ℕ
ago now now_unix none = 0
ago now now_unix (some t) = now_unix - as_secs (now - t)

abbrev blocked_unix : ℕ → ℕ → Option ℕ → ℕ
blocked_unix now now_unix none = 0
blocked_unix now now_unix (some b) = if ltb now b then sat_u64 (now_unix + as_secs (b - now)) else 0

unfoldable pub snapshot_of : ModelState → ℕ → ℕ → GovernorSnapshot
snapshot_of s now now_unix = record {
  worker_limit = s.limit;
  last_exhausted_unix = ago now now_unix s.last_exhausted;
  last_adjusted_unix = ago now now_unix s.last_adjusted;
  blocked_until_unix = blocked_unix now now_unix s.blocked_until;
}

unfoldable pub snapshots : Governor → ℕ → ℕ → List (String × GovernorSnapshot)
snapshots gov now now_unix =
    map (λ e. (e.0, snapshot_of e.1 now now_unix)) (keep (λ e. ltb 0 e.1.limit) gov)

-- the closure `at`; the outer `none` is the panic of `now - Duration`
abbrev at : ℕ → ℕ → ℕ → Option (Option ℕ)
at now now_unix unix =
    if unix == 0
    then some none
    else (elim (before now (from_secs (now_unix - unix))) [ none ↦ none | some t ↦ some (some t) ])

-- when the drain gap ends; the outer `none` is the panic of `now + Duration`
abbrev blocked_at : ℕ → ℕ → ℕ → Option (Option ℕ)
blocked_at now now_unix until =
    if ltb now_unix until
    then (elim (after now (from_secs (until - now_unix))) [ none ↦ none | some t ↦ some (some t) ])
    else some none

restored_state : ModelState → GovernorSnapshot → Option ℕ → Option ℕ → Option ℕ → ModelState
restored_state s snap exhausted adjusted blocked = record s {
  limit = snap.worker_limit;
  last_exhausted = exhausted;
  last_adjusted = adjusted;
  blocked_until = blocked;
}

unfoldable pub restore : Governor → String → GovernorSnapshot → ℕ → ℕ → Option Governor
unfolding entry restored_state
restore gov model snap now now_unix = if snap.worker_limit == 0 then some gov else (do
  exhausted ← at now now_unix snap.last_exhausted_unix
  adjusted ← at now now_unix snap.last_adjusted_unix
  blocked ← blocked_at now now_unix snap.blocked_until_unix
  some (
      insert String-discrete model
        (restored_state (entry gov model) snap exhausted adjusted blocked) gov))

ago-at :
    (now now_unix unix : ℕ) (o : Option ℕ)
    → unix ≤ now_unix
    → at now now_unix unix ≡ some o
    → ago now now_unix o ≡ unix
ago-at now now_unix unix none h e = ground arith
ago-at now now_unix unix (some t) h e = ground arith

blocked_unix-restored :
    (now now_unix until : ℕ) (o : Option ℕ)
    → until ≤ u64_max
    → blocked_at now now_unix until ≡ some o
    → blocked_unix now now_unix o ≡ (if ltb now_unix until then until else 0)
blocked_unix-restored now now_unix until none h e = ground arith
blocked_unix-restored now now_unix until (some t) h e = ground arith

snapshot_of-restored_state :
    (s : ModelState) (snap : GovernorSnapshot) (x a b : Option ℕ) (now now_unix : ℕ)
    → snap.last_exhausted_unix ≤ now_unix
    → snap.last_adjusted_unix ≤ now_unix
    → snap.blocked_until_unix ≤ u64_max
    → at now now_unix snap.last_exhausted_unix ≡ some x
    → at now now_unix snap.last_adjusted_unix ≡ some a
    → blocked_at now now_unix snap.blocked_until_unix ≡ some b
    → snapshot_of (restored_state s snap x a b) now now_unix ≡ record snap {
      blocked_until_unix =
          if ltb now_unix snap.blocked_until_unix then snap.blocked_until_unix else 0;
    }
unfolding snapshot_of restored_state
snapshot_of-restored_state s snap x a b now now_unix he ha fits ex ea eb = ground (
  arith,
  ago-at now now_unix snap.last_exhausted_unix x he ex,
  ago-at now now_unix snap.last_adjusted_unix a ha ea,
  blocked_unix-restored now now_unix snap.blocked_until_unix b fits eb,
)

restore_cases :
    (gov gov' : Governor) (model : String) (snap : GovernorSnapshot) (now now_unix : ℕ)
    → 0 < snap.worker_limit
    → restore gov model snap now now_unix ≡ some gov'
    → (x : Option ℕ) × (a : Option ℕ) × (b : Option ℕ) × (at now now_unix snap.last_exhausted_unix
        ≡ some x)
      × (at now now_unix snap.last_adjusted_unix ≡ some a)
      × (blocked_at now now_unix snap.blocked_until_unix ≡ some b)
      × (entry gov' model ≡ restored_state (entry gov model) snap x a b)
unfolding restore
restore_cases gov gov' model snap now now_unix l r =
    elim (Option-cases (at now now_unix snap.last_exhausted_unix)) [
      | inl n ↦ absurd (ground arith)
      | inr (x, ex) ↦ elim (Option-cases (at now now_unix snap.last_adjusted_unix)) [
        | inl n ↦ absurd (ground arith)
        | inr (a, ea) ↦ elim (Option-cases (blocked_at now now_unix snap.blocked_until_unix)) [
          | inl n ↦ absurd (ground arith)
          | inr (b, eb) ↦ (
            x,
            a,
            b,
            ex,
            ea,
            eb,
            ground (
              arith,
              ex,
              ea,
              eb,
              r,
              entry-insert gov model model (restored_state (entry gov model) snap x a b),
            ),
          )
        ]
      ]
    ]

-- A snapshot restored after a restart, and taken again at that moment, is the same snapshot, but
-- that a drain gap which has run out is gone. The snapshot's times must not lie after the restart,
-- but for the gap's end, and the requests in flight before the restore are kept.
pub snapshot_of-restore :
    (gov gov' : Governor) (model : String) (snap : GovernorSnapshot) (now now_unix : ℕ)
    → 0 < snap.worker_limit
    → snap.last_exhausted_unix ≤ now_unix
    → snap.last_adjusted_unix ≤ now_unix
    → snap.blocked_until_unix ≤ u64_max
    → restore gov model snap now now_unix ≡ some gov'
    → (snapshot_of (entry gov' model) now now_unix ≡ record snap {
      blocked_until_unix =
          if ltb now_unix snap.blocked_until_unix then snap.blocked_until_unix else 0;
    })
      × ((entry gov' model).inflight ≡ (entry gov model).inflight)
unfolding restored_state
snapshot_of-restore gov gov' model snap now now_unix l e a b r =
    let (x, y, z, ex, ea, ez, same) = restore_cases gov gov' model snap now now_unix l r in
    rw same
      (snapshot_of-restored_state (entry gov model) snap x y z now now_unix e a b ex ea ez, refl)
