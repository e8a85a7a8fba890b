-- ===== src/Pool/Persist.antt =====
-- The persistence hooks of proxy/src/pool.rs: the windows and the cooldowns in Unix milliseconds,
-- and their restoration, with `Instant::now()` as an argument.
use flock.Base.{
  ℕ, ◌+◌, ◌-◌, ◌*◌, Bool, true, false, Option, none, some, List, [], ◌∷◌, ◌++◌, String,
  String-discrete, leb, ltb, ite, if◌then◌else◌, not, map, keep, max, get_elem?, before, after,
  ◌>>=◌, from_millis, as_millis, sat_u64, u64, usize, take, length,
}
use flock.Pool.Lanes.{window, Lane}
use flock.Pool.{Pool}

unfoldable pub insert_ms : ℕ → List ℕ → List ℕ
insert_ms a [] = a ∷ []
insert_ms a (b ∷ bs) = let rest = insert_ms a bs in if leb a b then a ∷ b ∷ bs else b ∷ rest

-- `sort_unstable`
unfoldable pub sort_ms : List ℕ → List ℕ
unfolding insert_ms
sort_ms [] = []
sort_ms (a ∷ rest) = insert_ms a (sort_ms rest)

-- the Unix time, in milliseconds, of an instant of the past
abbrev pub unix_ms : ℕ → ℕ → ℕ → ℕ
unix_ms now now_ms t = now_ms - u64 (as_millis (now - t))

-- the closure of `lane_window_rows` on one lane
unfoldable pub window_row : ℕ → ℕ → Lane → String × List ℕ
unfolding sort_ms
window_row now now_ms l =
    (l.key, sort_ms (map (unix_ms now now_ms) (keep (λ t. ltb (now - t) window) l.sent)))

abbrev is_empty : List ℕ → Bool
is_empty [] = true
is_empty (t ∷ ts) = false

unfoldable pub lane_window_rows : Pool → ℕ → ℕ → List (String × List ℕ)
unfolding window_row
lane_window_rows p now now_unix =
    keep (λ row. not (is_empty row.1)) (map (window_row now (sat_u64 (now_unix * 1000))) p.lanes)

cooldown_rows_of : List Lane → ℕ → ℕ → List (String × ℕ)
cooldown_rows_of [] now now_ms = []
cooldown_rows_of (l ∷ ls) now now_ms =
    let rest = cooldown_rows_of ls now now_ms in
    if ltb now l.cooldown_until
    then (l.key, sat_u64 (now_ms + u64 (as_millis (l.cooldown_until - now)))) ∷ rest
    else rest

unfoldable pub cooldown_rows : Pool → ℕ → ℕ → List (String × ℕ)
unfolding cooldown_rows_of
cooldown_rows p now now_unix = cooldown_rows_of p.lanes now (sat_u64 (now_unix * 1000))

-- the loop of `restore_lane_window`; `none` is the panic of `now - Duration`
unfoldable pub restore_sent : List ℕ → List ℕ → ℕ → ℕ → Option (List ℕ)
restore_sent sent [] now now_ms = some sent
restore_sent sent (ms ∷ rest) now now_ms =
    if ltb (now_ms - ms) (as_millis window)
    then (elim (before now (from_millis (now_ms - ms))) [
      | none ↦ none
      | some t ↦ restore_sent (sent ++ t ∷ []) rest now now_ms
    ])
    else restore_sent sent rest now now_ms

abbrev pub restore_lane : List ℕ → ℕ → ℕ → Lane → Option Lane
restore_lane sent_ms now now_ms l = elim (restore_sent l.sent sent_ms now now_ms) [
  | none ↦ none
  | some sent ↦ some (record l { sent = sent })
]

-- the first lane of a key is changed
unfoldable pub update_lane : String → (Lane → Option Lane) → List Lane → Option (List Lane)
update_lane key f [] = some []
update_lane key f (l ∷ ls) =
    ite (String-discrete l.key key) (elim (f l) [ none ↦ none | some l' ↦ some (l' ∷ ls) ])
      (elim (update_lane key f ls) [ none ↦ none | some ls' ↦ some (l ∷ ls') ])

unfoldable pub restore_lane_window : Pool → String → List ℕ → ℕ → ℕ → Option Pool
unfolding update_lane restore_sent
restore_lane_window p key sent_ms now now_unix =
    elim (update_lane key (restore_lane sent_ms now (sat_u64 (now_unix * 1000))) p.lanes) [
      | none ↦ none
      | some ls ↦ some (record p { lanes = ls })
    ]

unfoldable pub restore_cooldown : Pool → String → ℕ → ℕ → ℕ → Option Pool
unfolding update_lane
restore_cooldown p key until_ms now now_unix =
    let now_ms = sat_u64 (now_unix * 1000) in
    if leb until_ms now_ms then some p else (do
      until ← after now (from_millis (until_ms - now_ms))
      ls ←
          update_lane key (λ l. some (record l { cooldown_until = max l.cooldown_until until }))
            p.lanes
      some (record p { lanes = ls }))

unfoldable pub lane_key : Pool → ℕ → Option String
lane_key p i = elim (get_elem? p.lanes i) [ none ↦ none | some l ↦ some l.key ]

-- the enabled lanes
abbrev len : Pool → ℕ
len p = p.active

-- one lane's live state
record LaneStat : Type 0 where
  pub key : String
  pub rpm : ℕ
  pub in_window : ℕ
  pub cooldown_ms : ℕ

lane_stat : ℕ → Lane → LaneStat
lane_stat now l = record {
  key = l.key;
  rpm = l.rpm;
  in_window = length (keep (λ t. ltb (now - t) window) l.sent);
  cooldown_ms = u64 (as_millis (l.cooldown_until - now));
}

-- a slice past the lanes panics
lane_stats : Pool → ℕ → Option (List LaneStat)
unfolding lane_stat
lane_stats p now =
    if ltb (length p.lanes) p.active
    then none
    else some (map (lane_stat now) (take p.active p.lanes))

sum_rpm : List Lane → ℕ
sum_rpm [] = 0
sum_rpm (l ∷ ls) = usize (l.rpm + sum_rpm ls)

capacity_rpm : Pool → Option ℕ
unfolding sum_rpm
capacity_rpm p =
    if ltb (length p.lanes) p.active then none else some (sum_rpm (take p.active p.lanes))

rpms : Pool → Option (List ℕ)
rpms p =
    if ltb (length p.lanes) p.active then none else some (map (λ l. l.rpm) (take p.active p.lanes))
