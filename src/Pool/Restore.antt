-- ===== src/Pool/Restore.antt =====
-- The windows of proxy/src/pool.rs across a restart.
use flock.Base.{
  ℕ, ◌-◌, ◌*◌, ◌^◌, ◌≤◌, ◌<◌, ◌≡◌, refl, Bool, true, Option, some, List, [], ◌∷◌, ◌++◌, String,
  String-discrete, arith, ltb, map, keep, before, from_millis, as_millis, sat_u64, All, Bool-cases,
  inl, inr, ap, sym, ◌∙◌, append-nil, append_assoc,
}
use flock.Pool.Lanes.{window, Lane}
use flock.Pool.{Pool, find_lane}
use flock.Pool.Persist.{
  insert_ms, sort_ms, unix_ms, window_row, restore_sent, restore_lane, update_lane,
  restore_lane_window,
}

abbrev pub Ascending : List ℕ → Type 0
Ascending [] = Unit
Ascending (a ∷ rest) = All (λ b. a ≤ b) rest × Ascending rest

-- the restored stamp of an instant: the instant, as far as whole milliseconds tell its age
abbrev pub rounded : ℕ → ℕ → ℕ
rounded now t = now - from_millis (as_millis (now - t))

insert_ms-below : (a : ℕ) (xs : List ℕ) → All (λ b. a ≤ b) xs → insert_ms a xs ≡ a ∷ xs
unfolding insert_ms
insert_ms-below a [] h = refl
insert_ms-below a (b ∷ xs) h = ground (arith, h.0)

sort_ms-Ascending : (xs : List ℕ) → Ascending xs → sort_ms xs ≡ xs
unfolding sort_ms
sort_ms-Ascending [] h = refl
sort_ms-Ascending (a ∷ xs) h = rw (sort_ms-Ascending xs h.1) (insert_ms-below a xs h.0)

module _ (now now_ms : ℕ) where
  abbrev live : ℕ → Bool
  live t = ltb (now - t) window

  unix_ms_mono : (a t : ℕ) → live a ≡ true → a ≤ t → unix_ms now now_ms a ≤ unix_ms now now_ms t
  unix_ms_mono a t l h = ground (arith, l)

  unix_ms-below :
      (a : ℕ) (ts : List ℕ)
      → live a ≡ true
      → All (λ b. a ≤ b) ts
      → All (λ m. unix_ms now now_ms a ≤ m) (map (unix_ms now now_ms) (keep live ts))
  unix_ms-below a [] l h = tt
  unix_ms-below a (t ∷ ts) l h = elim (Bool-cases (live t)) [
    | inl y ↦ rw y (unix_ms_mono a t l h.0, unix_ms-below a ts l h.1)
    | inr n ↦ rw n (unix_ms-below a ts l h.1)
  ]

  unix_ms-Ascending :
      (ts : List ℕ) → Ascending ts → Ascending (map (unix_ms now now_ms) (keep live ts))
  unix_ms-Ascending [] h = tt
  unix_ms-Ascending (t ∷ ts) h = elim (Bool-cases (live t)) [
    | inl y ↦ rw y (unix_ms-below t ts y h.0, unix_ms-Ascending ts h.1)
    | inr n ↦ rw n (unix_ms-Ascending ts h.1)
  ]

  age_kept :
      (t : ℕ)
      → live t ≡ true
      → as_millis window ≤ now_ms
      → now_ms - unix_ms now now_ms t ≡ as_millis (now - t)
  age_kept t y b = ground (arith, y)

  age-live : (t : ℕ) → live t ≡ true → ltb (as_millis (now - t)) (as_millis window) ≡ true
  age-live t y = ground (arith, y)

  rounded_past : (t : ℕ) → before now (from_millis (as_millis (now - t))) ≡ some (rounded now t)
  rounded_past t = ground arith

  restore_sent-live :
      (sent ts : List ℕ)
      → as_millis window ≤ now_ms
      → restore_sent sent (map (unix_ms now now_ms) (keep live ts)) now now_ms
        ≡ some (sent ++ map (rounded now) (keep live ts))
  unfolding restore_sent
  restore_sent-live sent [] b = ap some (sym (append-nil sent))
  restore_sent-live sent (t ∷ ts) b = elim (Bool-cases (live t)) [
    | inl y ↦
        rw (y, age_kept t y b, age-live t y, rounded_past t)
          (restore_sent-live (sent ++ rounded now t ∷ []) ts b
            ∙ ap some (append_assoc sent (rounded now t ∷ []) (map (rounded now) (keep live ts))))
    | inr n ↦ rw n (restore_sent-live sent ts b)
  ]

update_lane-found :
    (key : String) (f : Lane → Option Lane) (ls : List Lane) (l l' : Lane)
    → find_lane key ls ≡ some l
    → f l ≡ some l'
    → l'.key ≡ l.key
    → (ls' : List Lane) × (update_lane key f ls ≡ some ls') × (find_lane key ls' ≡ some l')
unfolding update_lane find_lane
update_lane-found key f [] l l' g e k = absurd (ground (arith, g))
update_lane-found key f (x ∷ ls) l l' g e k = elim (String-discrete x.key key) [
  | yes y ↦
      let same : x ≡ l = ground (arith, g) in
      (l' ∷ ls, ground (arith, same, e), ground (arith, k, same))
  | no n ↦
      let (ls', u, h) = update_lane-found key f ls l l' (ground (arith, g)) e k in
      (x ∷ ls', ground (arith, u), ground (arith, h))
]

-- what a restart keeps of a lane's stamps
abbrev pub restored_stamps : ℕ → Lane → List ℕ
restored_stamps now l = map (rounded now) (keep (λ t. ltb (now - t) window) l.sent)

restore_sent-window_row :
    (now now_unix : ℕ) (fresh prev : Lane)
    → fresh.sent ≡ []
    → Ascending prev.sent
    → 61 ≤ now_unix
    → now_unix * 1000 < 2 ^ 64
    → restore_sent fresh.sent
        (window_row now (now_unix * 1000) prev).1
        now
        (sat_u64 (now_unix * 1000))
      ≡ some (restored_stamps now prev)
unfolding window_row
restore_sent-window_row now now_unix fresh prev z a b c =
    let same : sat_u64 (now_unix * 1000) ≡ now_unix * 1000 = ground arith in
    rw
      (
        same,
        z,
        sort_ms-Ascending
            (map (unix_ms now (now_unix * 1000)) (keep (live now (now_unix * 1000)) prev.sent))
            (unix_ms-Ascending now (now_unix * 1000) prev.sent a),
      )
      (restore_sent-live now (now_unix * 1000) [] prev.sent (omega arith))

restore_lane-some :
    (row : List ℕ) (now now_ms : ℕ) (l : Lane) (sent : List ℕ)
    → restore_sent l.sent row now now_ms ≡ some sent
    → restore_lane row now now_ms l ≡ some (record l { sent = sent })
restore_lane-some row now now_ms l sent e = ground (arith, e)

restored_pool :
    (p : Pool) (key : String) (row : List ℕ) (now now_unix : ℕ) (ls : List Lane)
    → update_lane key (restore_lane row now (sat_u64 (now_unix * 1000))) p.lanes ≡ some ls
    → restore_lane_window p key row now now_unix ≡ some (record p { lanes = ls })
unfolding restore_lane_window
restored_pool p key row now now_unix ls u = ground (arith, u)

-- A lane's window survives a restart: the row exported for a lane, restored at the same time to a
-- lane of that key with an empty window, gives it exactly the stamps still in the window, in
-- order, each moved later by less than a millisecond at most (`rounded`), without a panic. The
-- window must be in the order it was filled in, and the Unix time a minute past the epoch at least
-- and in range.
pub restore_lane_window-window_row :
    (p : Pool) (key : String) (fresh prev : Lane) (now now_unix : ℕ)
    → find_lane key p.lanes ≡ some fresh
    → fresh.sent ≡ []
    → Ascending prev.sent
    → 61 ≤ now_unix
    → now_unix * 1000 < 2 ^ 64
    → (q : Pool) × (restore_lane_window p key (window_row now (now_unix * 1000) prev).1 now now_unix
        ≡ some q)
      × (find_lane key q.lanes ≡ some (record fresh { sent = restored_stamps now prev }))
restore_lane_window-window_row p key fresh prev now now_unix g z a b c =
    let row = (window_row now (now_unix * 1000) prev).1 in
    let lane' : Lane = record fresh { sent = restored_stamps now prev } in
    let e = restore_sent-window_row now now_unix fresh prev z a b c in
    let (ls, u, h) =
      update_lane-found key (restore_lane row now (sat_u64 (now_unix * 1000))) p.lanes fresh lane' g
        (restore_lane-some row now (sat_u64 (now_unix * 1000)) fresh (restored_stamps now prev) e)
        refl in
    (record p { lanes = ls }, restored_pool p key row now now_unix ls u, h)
