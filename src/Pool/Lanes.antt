-- ===== src/Pool/Lanes.antt =====
-- One key's lane in proxy/src/pool.rs: its sliding window, its cooldown, and the tests on it.
use flock.Base.{
  ℕ, ◌+◌, ◌-◌, Bool, true, false, ◌||◌, List, [], ◌∷◌, ◌++◌, String, leb, ltb, ◌==◌, if◌then◌else◌,
  Option, none, some, length, get_elem?, max, from_secs,
}

-- NIM's rolling minute and a second for delivery jitter
abbrev pub window : ℕ
window = from_secs 61

-- `sent` holds the stamps of the requests sent, the oldest first
pub record Lane : Type 0 where
  pub key : String
  pub rpm : ℕ
  pub sent : List ℕ
  pub cooldown_until : ℕ

-- `while sent.front().is_some_and(|t| now - *t >= WINDOW) { sent.pop_front(); }`
unfoldable pub evict : ℕ → List ℕ → List ℕ
evict now [] = []
evict now (t ∷ ts) = let rest = evict now ts in if leb window (now - t) then rest else t ∷ ts

-- the lane with its window brought up to `now`
abbrev pub refresh : ℕ → Lane → Lane
refresh now l = record l { sent = evict now l.sent }

-- the body of `try_take`: a slot is taken, and stamped, if there is one right now
unfoldable pub take_slot : ℕ → Lane → Lane × Bool
take_slot now l =
    if ltb now l.cooldown_until
    then (l, false)
    else (let sent = evict now l.sent in
        if ltb (length sent) l.rpm
        then (record l { sent = sent ++ now ∷ [] }, true)
        else (record l { sent = sent }, false))

-- when a refreshed lane has a slot next, its cooldown aside
abbrev pub add_window : Option ℕ → Option ℕ
add_window none = none
add_window (some t) = some (t + window)

-- `none` is the panic of an index out of bounds
unfoldable pub window_ready : ℕ → Lane → Option ℕ
window_ready now l =
    if ltb (length l.sent) l.rpm
    then some now
    else (if l.rpm == 0
        then some (now + window)
        else add_window (get_elem? l.sent (length l.sent - l.rpm)))

abbrev pub not_before : ℕ → Option ℕ → Option ℕ
not_before cooldown none = none
not_before cooldown (some t) = some (max t cooldown)

unfoldable pub ready_at : ℕ → Lane → Option ℕ
unfolding window_ready
ready_at now l = not_before l.cooldown_until (window_ready now l)

unfoldable pub has : ℕ → List ℕ → Bool
has a [] = false
has a (t ∷ ts) = t == a || has a ts

-- `rposition` and `remove`: the list without the last entry equal to `stamp`
unfoldable pub remove_last : ℕ → List ℕ → List ℕ
unfolding has
remove_last stamp [] = []
remove_last stamp (t ∷ ts) =
    let rest = remove_last stamp ts in
    if has stamp ts then t ∷ rest else (if t == stamp then ts else t ∷ ts)
