-- ===== src/Governor/Model.antt =====
-- One model's entry in the governor of proxy/src/governor.rs, and what each method does to it.
use flock.Base.{
  ℕ, ◌+◌, ◌-◌, ◌*◌, ◌/◌, Bool, true, false, ◌&&◌, Option, none, some, leb, ltb, if◌then◌else◌, max,
  usize, from_secs,
}

-- `limit` is 0 while the model is ungoverned
pub record ModelState : Type 0 where
  pub limit : ℕ
  pub inflight : ℕ
  pub blocked_until : Option ℕ
  pub last_exhausted : Option ℕ
  pub last_adjusted : Option ℕ

abbrev pub default_state : ModelState
default_state = record {
  limit = 0;
  inflight = 0;
  blocked_until = none;
  last_exhausted = none;
  last_adjusted = none;
}

abbrev pub exhaust_backoff : ℕ
exhaust_backoff = from_secs 2

abbrev pub grow_interval : ℕ
grow_interval = from_secs 60

abbrev pub dissolve_after : ℕ
dissolve_after = from_secs (30 * 60)

-- `t.is_some_and(|t| now.duration_since(t) >= d)`
abbrev pub since : Option ℕ → ℕ → ℕ → Bool
since none now d = false
since (some t) now d = leb d (now - t)

-- `b.is_some_and(|b| b > now)`
abbrev pub is_blocked : Option ℕ → ℕ → Bool
is_blocked none now = false
is_blocked (some b) now = ltb now b

-- the adaptive lifecycle: dissolve, else grow by one; not for an operator-pinned model
unfoldable pub adapt : ModelState → Option ℕ → ℕ → ModelState
adapt s (some _) now = s
adapt s none now =
    if ltb 0 s.limit
    then (if since s.last_exhausted now dissolve_after
        then record s { limit = 0; last_adjusted = some now }
        else (if since s.last_adjusted now grow_interval
            then record s { limit = usize (s.limit + 1); last_adjusted = some now }
            else s))
    else s

abbrev pub unwrap_or : Option ℕ → ℕ → ℕ
unwrap_or none d = d
unwrap_or (some n) d = n

-- `admit_at`, past the adaptive lifecycle
unfoldable pub admit_adapted : ModelState → Option ℕ → ℕ → ModelState × Bool
admit_adapted s override_limit now =
    let limit = unwrap_or override_limit s.limit in
    if is_blocked s.blocked_until now
    then (s, false)
    else (if ltb 0 limit && leb limit s.inflight
        then (s, false)
        else (record s { inflight = usize (s.inflight + 1) }, true))

unfoldable pub admit_state : ModelState → Option ℕ → ℕ → ModelState × Bool
unfolding adapt admit_adapted
admit_state s override_limit now = admit_adapted (adapt s override_limit now) override_limit now

-- `saturating_sub(1)`
unfoldable pub release_state : ModelState → ModelState
release_state s = record s { inflight = s.inflight - 1 }

exhaust_limit : ModelState → Option ℕ → ℕ → ModelState
exhaust_limit s (some _) now = s
exhaust_limit s none now = record s { limit = max (s.inflight / 2) 1; last_adjusted = some now }

unfoldable pub exhaust_state : ModelState → Option ℕ → ℕ → ModelState
unfolding exhaust_limit
exhaust_state s override_limit now =
    exhaust_limit
      (record s { blocked_until = some (now + exhaust_backoff); last_exhausted = some now })
      override_limit now
