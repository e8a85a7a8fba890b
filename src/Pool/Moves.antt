-- ===== src/Pool/Moves.antt =====
-- What a reservation of proxy/src/pool.rs does to the lanes: one takes a slot, or none, and every
-- other lane is at most brought up to the time.
use flock.Base.{
  ℕ, zero, suc, ◌+◌, ◌≤◌, ◌<◌, ◌≡◌, refl, sym, ◌∙◌, ◌⊎◌, inl, inr, Bool, true, false, Option, none,
  some, List, [], ◌∷◌, ◌++◌, arith, ltb, ◌==◌, length, get_elem?, set, Option-cases, Bool-cases,
  String,
}
use flock.Pool.Lanes.{evict, Lane, refresh, take_slot}
use flock.Pool.Window.{evict_idem}
use flock.Pool.Scanned.{sweep, reserve_swept, reserve_any_swept}
use flock.Pool.{
  Pool, Reservation, ready, wait, try_take, sort_loads, first_ready, reserve_any, reserve_preferred,
  reserve,
}

-- a lane before and after, and whether it gave a slot
abbrev pub Moved : ℕ → Lane → Lane → Bool → Type 0
Moved now l l' false = (l' ≡ l) ⊎ (l' ≡ refresh now l)
Moved now l l' true =
    (l' ≡ record l { sent = evict now l.sent ++ now ∷ [] })
    × (l.cooldown_until ≤ now)
    × (length (evict now l.sent) < l.rpm)

abbrev pub is_lane : Option ℕ → ℕ → Bool
is_lane none i = false
is_lane (some j) i = j == i

-- the lanes from number `i` on, of which lane `g` alone gave a slot
abbrev pub MovedAll : ℕ → Option ℕ → ℕ → List Lane → List Lane → Type 0
MovedAll now g i [] [] = Unit
MovedAll now g i (l ∷ ls) (l' ∷ ls') = Moved now l l' (is_lane g i) × MovedAll now g (suc i) ls ls'
MovedAll now g i _ _ = ⊥

take-Moved :
    (now : ℕ) (l l' : Lane)
    → Moved now l l' false
    → let (l'', taken) = take_slot now l' in Moved now l l'' taken
unfolding take_slot
take-Moved now l l' (inl e) = rw e (ground arith)
take-Moved now l l' (inr e) = rw e (ground (arith, evict_idem now l.sent))

pub MovedAll-refl : (now i : ℕ) (ls : List Lane) → MovedAll now none i ls ls
MovedAll-refl now i [] = tt
MovedAll-refl now i (l ∷ ls) = (inl refl, MovedAll-refl now (suc i) ls)

refresh-Moved : (now : ℕ) (l l' : Lane) → Moved now l l' false → Moved now l (refresh now l') false
refresh-Moved now l l' (inl e) = rw e (inr refl)
refresh-Moved now l l' (inr e) = rw e (inr (ground (arith, evict_idem now l.sent)))

sweep-MovedAll :
    (now n i : ℕ) (ls ls' : List Lane)
    → MovedAll now none i ls ls'
    → MovedAll now none i ls (sweep now n i ls').lanes
unfolding sweep
sweep-MovedAll now zero i ls ls' m = m
sweep-MovedAll now (suc n) i [] [] m = tt
sweep-MovedAll now (suc n) i (l ∷ ls) [] m = absurd m
sweep-MovedAll now (suc n) i [] (l' ∷ ls') m = absurd m
sweep-MovedAll now (suc n) i (l ∷ ls) (l' ∷ ls') m =
    (refresh-Moved now l l' m.0, sweep-MovedAll now n (suc i) ls ls' m.1)

MovedAll-later :
    (now k i : ℕ) (ls ls' : List Lane)
    → k < i
    → MovedAll now none i ls ls'
    → MovedAll now (some k) i ls ls'
MovedAll-later now k i [] [] h m = tt
MovedAll-later now k i [] (l' ∷ ls') h m = m
MovedAll-later now k i (l ∷ ls) [] h m = m
MovedAll-later now k i (l ∷ ls) (l' ∷ ls') h m =
    (ground arith, MovedAll-later now k (suc i) ls ls' (omega arith) m.1)

-- the lane that gives a slot, if one does
abbrev given : Bool → ℕ → Option ℕ
given true k = some k
given false k = none

given-MovedAll :
    (now i k : ℕ) (x x' : Lane) (taken : Bool) (ls ls' : List Lane)
    → i ≡ k
    → Moved now x x' taken
    → MovedAll now none (suc i) ls ls'
    → MovedAll now (given taken k) i (x ∷ ls) (x' ∷ ls')
given-MovedAll now i k x x' true ls ls' e m r =
    (ground arith, MovedAll-later now k (suc i) ls ls' (omega arith) r)
given-MovedAll now i k x x' false ls ls' e m r = (m, r)

given-Moved :
    (now i k : ℕ) (x x' : Lane) (taken : Bool)
    → i < k
    → Moved now x x' false
    → Moved now x x' (is_lane (given taken k) i)
given-Moved now i k x x' true h m = ground arith
given-Moved now i k x x' false h m = m

set_take-MovedAll :
    (now i j k : ℕ) (ls ls' : List Lane) (l' : Lane)
    → i + j ≡ k
    → MovedAll now none i ls ls'
    → get_elem? ls' j ≡ some l'
    → let (l'', taken) = take_slot now l' in MovedAll now (given taken k) i ls (set ls' j l'')
set_take-MovedAll now i j k [] [] l' e m g = cc
set_take-MovedAll now i j k [] (x' ∷ ls') l' e m g = absurd m
set_take-MovedAll now i j k (x ∷ ls) [] l' e m g = absurd m
set_take-MovedAll now i zero k (x ∷ ls) (x' ∷ ls') l' e m g =
    given-MovedAll now i k x (take_slot now l').0 (take_slot now l').1 ls ls' (omega arith)
      (take-Moved now x l' (ground arith)) m.1
set_take-MovedAll now i (suc j) k (x ∷ ls) (x' ∷ ls') l' e m g = (
  given-Moved now i k x x' (take_slot now l').1 (omega arith) m.0,
  set_take-MovedAll now (suc i) j k ls ls' l' (omega arith) m.1 g,
)

-- the lane of a reservation
abbrev pub granted : Reservation → Option ℕ
granted (ready i key stamp sticky) = some i
granted (wait d) = none

abbrev opt_granted : Option Reservation → Option ℕ
opt_granted none = none
opt_granted (some r) = granted r

-- the key of lane `j`
abbrev pub key_at : List Lane → ℕ → Option String
key_at [] j = none
key_at (l ∷ ls) zero = some l.key
key_at (l ∷ ls) (suc j) = key_at ls j

-- a granted slot is stamped with the time of the grant, and comes with its lane's key
abbrev pub GrantOf : ℕ → List Lane → Reservation → Type 0
GrantOf now ls (ready i key stamp sticky) = (stamp ≡ now) × (key_at ls i ≡ some key)
GrantOf now ls (wait d) = Unit

abbrev OptGrantOf : ℕ → List Lane → Option Reservation → Type 0
OptGrantOf now ls none = Unit
OptGrantOf now ls (some r) = GrantOf now ls r

pub Moved-key : (now : ℕ) (l l' : Lane) (b : Bool) → Moved now l l' b → l'.key ≡ l.key
Moved-key now l l' true m = ground arith
Moved-key now l l' false (inl e) = ground arith
Moved-key now l l' false (inr e) = ground arith

pub Moved-rpm : (now : ℕ) (l l' : Lane) (b : Bool) → Moved now l l' b → l'.rpm ≡ l.rpm
Moved-rpm now l l' true m = ground arith
Moved-rpm now l l' false (inl e) = ground arith
Moved-rpm now l l' false (inr e) = ground arith

key_at-moved :
    (now i j : ℕ) (g : Option ℕ) (ls ls' : List Lane) (l : Lane)
    → MovedAll now g i ls ls'
    → get_elem? ls' j ≡ some l
    → key_at ls j ≡ some l.key
key_at-moved now i j g [] [] l m e = absurd (ground arith)
key_at-moved now i j g [] (x' ∷ ls') l m e = absurd m
key_at-moved now i j g (x ∷ ls) [] l m e = absurd m
key_at-moved now i zero g (x ∷ ls) (x' ∷ ls') l m e =
    ground (arith, Moved-key now x x' (is_lane g i) m.0)
key_at-moved now i (suc j) g (x ∷ ls) (x' ∷ ls') l m e = key_at-moved now (suc i) j g ls ls' l m.1 e

try_take-MovedAll :
    (now i : ℕ) (sticky : Bool) (ls : List Lane) (p p' : Pool) (o : Option Reservation)
    → MovedAll now none 0 ls p.lanes
    → try_take p i now sticky ≡ some (p', o)
    → MovedAll now (opt_granted o) 0 ls p'.lanes × (p'.active ≡ p.active) × OptGrantOf now ls o
unfolding try_take
try_take-MovedAll now i sticky ls p p' o m e = elim (Option-cases (get_elem? p.lanes i)) [
  | inl n ↦ absurd (ground arith)
  | inr (l, g) ↦ elim (Bool-cases (take_slot now l).1) [
    | inl t ↦ ground (
      arith,
      set_take-MovedAll now 0 i i ls p.lanes l (omega arith) m g,
      key_at-moved now 0 i none ls p.lanes l m g,
    )
    | inr f ↦ ground (arith, set_take-MovedAll now 0 i i ls p.lanes l (omega arith) m g)
  ]
]

-- what every reservation does to the lanes `ls`, from which a pool has been brought up to `now`
abbrev pub Reserved : ℕ → List Lane → ℕ → Pool → Reservation → Type 0
Reserved now ls active p r =
    MovedAll now (granted r) 0 ls p.lanes × (p.active ≡ active) × GrantOf now ls r

first_ready-Reserved :
    (now best : ℕ) (loads : List (ℕ × ℕ)) (ls : List Lane) (p p' : Pool) (r : Reservation)
    → MovedAll now none 0 ls p.lanes
    → first_ready p now loads best ≡ some (p', r)
    → Reserved now ls p.active p' r
unfolding first_ready
first_ready-Reserved now best [] ls p p' r m e = ground arith
first_ready-Reserved now best ((load, i) ∷ rest) ls p p' r m e =
    elim (Option-cases (try_take p i now false)) [
      | inl n ↦ absurd (ground arith)
      | inr ((q, some r'), t) ↦ ground (arith, try_take-MovedAll now i false ls p q (some r') m t)
      | inr ((q, none), t) ↦
          let (m', a, _) = try_take-MovedAll now i false ls p q none m t in
          ground (arith, a, first_ready-Reserved now best rest ls q p' r m' (ground (arith, t, e)))
    ]

reserve_swept-Reserved :
    (now : ℕ) (ls : List Lane) (p p' : Pool) (r : Reservation)
    → MovedAll now none 0 ls p.lanes
    → reserve_swept p now ≡ some (p', r)
    → Reserved now ls p.active p' r
unfolding reserve_swept
reserve_swept-Reserved now ls p p' r m e = elim (Bool-cases (ltb (length p.lanes) p.active)) [
  | inl t ↦ absurd (ground (arith, t, e))
  | inr f ↦
      let s = sweep now p.active 0 p.lanes in
      first_ready-Reserved now s.best_wait (sort_loads s.loads) ls (record p { lanes = s.lanes }) p'
        r (sweep-MovedAll now p.active 0 ls p.lanes m) (ground (arith, f, e))
]

reserve_any-Reserved :
    (now : ℕ) (ls : List Lane) (p p' : Pool) (r : Reservation)
    → MovedAll now none 0 ls p.lanes
    → reserve_any p now ≡ some (p', r)
    → Reserved now ls p.active p' r
reserve_any-Reserved now ls p p' r m e =
    reserve_swept-Reserved now ls p p' r m (sym (reserve_any_swept p now) ∙ e)

reserve_preferred-Reserved :
    (now i : ℕ) (p p' : Pool) (r : Reservation)
    → reserve_preferred p i now ≡ some (p', r)
    → Reserved now p.lanes p.active p' r
unfolding reserve_preferred
reserve_preferred-Reserved now i p p' r e = elim (Option-cases (try_take p i now true)) [
  | inl n ↦ absurd (ground arith)
  | inr ((q, some r'), t) ↦
      ground
        (arith, try_take-MovedAll now i true p.lanes p q (some r') (MovedAll-refl now 0 p.lanes) t)
  | inr ((q, none), t) ↦
      let (m, a, _) =
        try_take-MovedAll now i true p.lanes p q none (MovedAll-refl now 0 p.lanes) t in
      ground (arith, a, reserve_any-Reserved now p.lanes q p' r m (ground (arith, t, e)))
]

-- Every reservation gives a slot on the lane that it names and on no other, and that lane was not
-- cooling down and had fewer than `rpm` stamps in its window; the slot is stamped with the time of
-- the grant and comes with the lane's key. A wait gives none. Every other lane is as it was, or had its window brought up to the
-- time, and keys, budgets, cooldowns and the number of active lanes stay.
pub reserve-Reserved :
    (now : ℕ) (prefer : Option ℕ) (p p' : Pool) (r : Reservation)
    → reserve p prefer now ≡ some (p', r)
    → Reserved now p.lanes p.active p' r
unfolding reserve
reserve-Reserved now none p p' r e =
    reserve_any-Reserved now p.lanes p p' r (MovedAll-refl now 0 p.lanes) e
reserve-Reserved now (some i) p p' r e = elim (Bool-cases (ltb i p.active)) [
  | inl t ↦ reserve_preferred-Reserved now i p p' r (ground (arith, t, e))
  | inr f ↦
      reserve_any-Reserved now p.lanes p p' r (MovedAll-refl now 0 p.lanes) (ground (arith, f, e))
]
