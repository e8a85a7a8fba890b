-- ===== src/Pool/Choice.antt =====
-- Which lane a reservation of proxy/src/pool.rs takes, and when it takes none.
use flock.Base.{
  ◌∙◌, ℕ, zero, suc, ◌≤◌, ◌<◌, ◌≡◌, refl, ◌⊎◌, inl, inr, Bool, true, false, Option, none, some,
  List, [], ◌∷◌, arith, ltb, length, get_elem?, Bool-cases, Option-cases, String, subst, sym,
}
use flock.Pool.Lanes.{Lane, refresh}
use flock.Pool.Window.{evict_idem}
use flock.Pool.Loads.{
  HasSlot, load, sweep-loads, Visited, sweep-loads_lane, sort_loads-In, In-sort_loads,
  sort_loads-IsSorted,
}
use flock.Pool.Attempt.{
  failed_take, failed_take_keeps, try_take-Taken, first_ready-wait, failed_take_origin, Head,
  first_ready-Head, try_take_active,
}
use flock.Pool.Scanned.{sweep, reserve_swept, reserve_any_swept}
use flock.Pool.{
  Pool, Reservation, ready, wait, load_le, try_take, sort_loads, reserve_any, reserve_preferred,
  reserve,
}

-- a scan brings each lane it visits up to `now`, and leaves the others
sweep-get_elem? :
    (now n i j : ℕ) (ls : List Lane) (l : Lane)
    → get_elem? ls j ≡ some l
    → j < n
    → get_elem? (sweep now n i ls).lanes j ≡ some (refresh now l)
unfolding sweep
sweep-get_elem? now zero i j ls l e b = absurd (omega arith)
sweep-get_elem? now (suc n) i j [] l e b = absurd (ground (arith, e))
sweep-get_elem? now (suc n) i zero (x ∷ ls) l e b =
    let same : x ≡ l = ground (arith, e) in rw same refl
sweep-get_elem? now (suc n) i (suc j) (x ∷ ls) l e b =
    sweep-get_elem? now n (suc i) j ls l e (omega arith)

refresh-HasSlot : (now : ℕ) (l : Lane) → HasSlot now l → HasSlot now (refresh now l)
refresh-HasSlot now l h = (h.0, rw (evict_idem now l.sent) h.1)

HasSlot-refresh : (now : ℕ) (l : Lane) → HasSlot now (refresh now l) → HasSlot now l
HasSlot-refresh now l h = (h.0, rw (evict_idem now l.sent) at (h.1))

-- none of the active lanes has a slot
abbrev pub Exhausted : ℕ → Pool → Type 0
Exhausted now p = (j : ℕ) (l : Lane) → j < p.active → get_elem? p.lanes j ≡ some l → ¬ HasSlot now l

-- the active lane `i` has a slot, and each other that has one has more in its window, or as much and
-- a higher number
pub record Least (now : ℕ) (p : Pool) (i : ℕ) : Type 0 where
  pub lane : Lane
  pub at : get_elem? p.lanes i ≡ some lane
  pub bounded : i < p.active
  pub free : HasSlot now lane
  pub least :
      (j : ℕ) (l : Lane)
      → j < p.active
      → get_elem? p.lanes j ≡ some l
      → HasSlot now l
      → (load now lane < load now l) ⊎ ((load now lane ≡ load now l) × (i ≤ j))

reserve_swept-Exhausted :
    (p p' : Pool) (now d : ℕ) → reserve_swept p now ≡ some (p', wait d) → Exhausted now p
unfolding reserve_swept
reserve_swept-Exhausted p p' now d e j l b g h = elim (Bool-cases (ltb (length p.lanes) p.active)) [
  | inl t ↦ absurd (ground (arith, t, e))
  | inr f ↦
      let s = sweep now p.active 0 p.lanes in
      let found = sweep-loads now p.active 0 j j p.lanes l (omega arith) g b h in
      first_ready-wait (record p { lanes = s.lanes }) p' now s.best_wait d (load now l) j
        (sort_loads s.loads) (refresh now l) (rw f at e)
        (sort_loads-In (load now l, j) s.loads found)
        (sweep-get_elem? now p.active 0 j p.lanes l g b) (refresh-HasSlot now l h)
]

load_le_order : (m i n j : ℕ) → load_le (m, i) (n, j) ≡ true → (m < n) ⊎ ((m ≡ n) × (i ≤ j))
load_le_order m i n j e = ground (arith, e)

scanned : ℕ → Pool → Pool
scanned now p = record p { lanes = (sweep now p.active 0 p.lanes).lanes }

Head-Least :
    (p : Pool) (now i : ℕ) (sticky : Bool)
    → (head : Head (scanned now p) now i sticky (sort_loads (sweep now p.active 0 p.lanes).loads))
    → Visited now p.active 0 head.measure i p.lanes
    → Least now p i
unfolding scanned
Head-Least p now i sticky head v =
    let is : i ≡ v.place = omega (arith, v.number) in
    let seen = sweep-get_elem? now p.active 0 v.place p.lanes v.lane v.at v.bounded in
    let met : head.lane ≡ refresh now v.lane = ground (arith, head.at, seen, is) in
    record {
      lane = v.lane;
      at = rw is v.at;
      bounded = omega (arith, is, v.bounded);
      free = HasSlot-refresh now v.lane (subst (HasSlot now) met head.free);
      least = λ j l b g h. load_le_order (load now v.lane) i (load now l) j (
          subst (λ m. load_le (m, i) (load now l, j) ≡ true) v.measured
            (head.least (load now l) j (refresh now l)
              (sort_loads-In (load now l, j) (sweep now p.active 0 p.lanes).loads
                (sweep-loads now p.active 0 j j p.lanes l (omega arith) g b h))
              (sweep-get_elem? now p.active 0 j p.lanes l g b) (refresh-HasSlot now l h)));
    }

reserve_swept-Head :
    (p p' : Pool) (now i stamp : ℕ) (key : String) (sticky : Bool)
    → reserve_swept p now ≡ some (p', ready i key stamp sticky)
    → Head (scanned now p) now i sticky (sort_loads (sweep now p.active 0 p.lanes).loads)
unfolding reserve_swept scanned
reserve_swept-Head p p' now i stamp key sticky e =
    elim (Bool-cases (ltb (length p.lanes) p.active)) [
      | inl t ↦ absurd (ground (arith, t, e))
      | inr f ↦
          let s = sweep now p.active 0 p.lanes in
          first_ready-Head (record p { lanes = s.lanes }) p' now s.best_wait i stamp key sticky
            (sort_loads s.loads) (sort_loads-IsSorted s.loads) (rw f at e)
    ]

reserve_any-Least :
    (p p' : Pool) (now i stamp : ℕ) (key : String) (sticky : Bool)
    → reserve_any p now ≡ some (p', ready i key stamp sticky)
    → Least now p i
reserve_any-Least p p' now i stamp key sticky e =
    let head = reserve_swept-Head p p' now i stamp key sticky (sym (reserve_any_swept p now) ∙ e) in
    Head-Least p now i sticky head (
      sweep-loads_lane now p.active 0 head.measure i p.lanes
        (In-sort_loads (head.measure, i) (sweep now p.active 0 p.lanes).loads head.among))

-- the active lane `i` has a slot
abbrev pub Free : ℕ → Pool → ℕ → Type 0
Free now p i = (i < p.active) × (l : Lane) × (get_elem? p.lanes i ≡ some l) × HasSlot now l

-- the lane preferred, if it is an active one, has no slot
abbrev pub Unpreferred : ℕ → Pool → Option ℕ → Type 0
Unpreferred now p none = Unit
Unpreferred now p (some i) = ¬ Free now p i

-- what the pool at `now` says of the answer to a reservation
abbrev pub Chosen : ℕ → Pool → Option ℕ → Reservation → Type 0
Chosen now p prefer (wait d) = Exhausted now p
Chosen now p prefer (ready i key stamp true) = (prefer ≡ some i) × Free now p i
Chosen now p prefer (ready i key stamp false) = Unpreferred now p prefer × Least now p i

reserve_any-Chosen :
    (p p' : Pool) (now : ℕ) (r : Reservation)
    → reserve_any p now ≡ some (p', r)
    → Chosen now p none r
reserve_any-Chosen p p' now (wait d) e =
    reserve_swept-Exhausted p p' now d (sym (reserve_any_swept p now) ∙ e)
reserve_any-Chosen p p' now (ready i key stamp true) e = absurd (
    ground (
      arith,
      (reserve_swept-Head p p' now i stamp key true (sym (reserve_any_swept p now) ∙ e)).unsticky,
    ))
reserve_any-Chosen p p' now (ready i key stamp false) e =
    (tt, reserve_any-Least p p' now i stamp key false e)

failed_take-Unpreferred :
    (p p' : Pool) (i now : ℕ) → try_take p i now true ≡ some (p', none) → Unpreferred now p (some i)
failed_take-Unpreferred p p' i now e (b, l, g, h) = failed_take p p' i now true l e g h

Least-before :
    (p q : Pool) (i j now : ℕ)
    → try_take p i now true ≡ some (q, none)
    → Least now q j
    → Least now p j
Least-before p q i j now e m =
    let same = try_take_active p q i now true none e in
    record {
      lane = m.lane;
      at = failed_take_origin p q i now j true m.lane e m.at m.free;
      bounded = rw (sym same) m.bounded;
      free = m.free;
      least = λ k l b g h. m.least k l (rw same b) (failed_take_keeps p q i now k true l e g h) h;
    }

-- a preferred lane that is not an active one is as none
out_of_range-Chosen :
    (p : Pool) (i now : ℕ) (r : Reservation)
    → p.active ≤ i
    → Chosen now p none r
    → Chosen now p (some i) r
out_of_range-Chosen p i now (wait d) b c = c
out_of_range-Chosen p i now (ready j key stamp true) b c = absurd (ground (arith, c.0))
out_of_range-Chosen p i now (ready j key stamp false) b c = (λ u. omega (arith, u.0, b), c.1)

-- what a pool says after a failed attempt it said before it
failed_take-Chosen :
    (p q : Pool) (i now : ℕ) (r : Reservation)
    → try_take p i now true ≡ some (q, none)
    → Chosen now q none r
    → Chosen now p (some i) r
failed_take-Chosen p q i now (wait d) e c = λ j l b g h.
    c j l (rw (try_take_active p q i now true none e) b)
      (failed_take_keeps p q i now j true l e g h) h
failed_take-Chosen p q i now (ready j key stamp true) e c = absurd (ground (arith, c.0))
failed_take-Chosen p q i now (ready j key stamp false) e c =
    (failed_take-Unpreferred p q i now e, Least-before p q i j now e c.1)

reserve_preferred-Chosen :
    (p p' : Pool) (i now : ℕ) (r : Reservation)
    → i < p.active
    → reserve_preferred p i now ≡ some (p', r)
    → Chosen now p (some i) r
unfolding reserve_preferred
reserve_preferred-Chosen p p' i now r b e = elim (Option-cases (try_take p i now true)) [
  | inl z ↦ absurd (ground (arith, z, e))
  | inr ((q, some a), t) ↦
      let took = try_take-Taken p q i now true a t in
      let is : r ≡ ready i took.lane.key now true = ground (arith, t, e, took.answer) in
      rw is (refl, (b, took.lane, took.at, took.free))
  | inr ((q, none), t) ↦
      failed_take-Chosen p q i now r t (reserve_any-Chosen q p' now r (ground (arith, t, e)))
]

-- An answer of `reserve` is the right one for the pool it was asked of. A wait means that no active
-- lane has a slot right now. A sticky grant is the preferred lane, which is active and has one. Any
-- other grant is an active lane with a slot such that every active lane with a slot has more requests
-- in its window, or as many and a number no lower, and the preferred lane, if it is an active one,
-- has no slot.
pub reserve-Chosen :
    (p p' : Pool) (prefer : Option ℕ) (now : ℕ) (r : Reservation)
    → reserve p prefer now ≡ some (p', r)
    → Chosen now p prefer r
unfolding reserve
reserve-Chosen p p' none now r e = reserve_any-Chosen p p' now r e
reserve-Chosen p p' (some i) now r e = elim (Bool-cases (ltb i p.active)) [
  | inl t ↦ reserve_preferred-Chosen p p' i now r (ground (arith, t)) (rw t at e)
  | inr f ↦
      out_of_range-Chosen p i now r (ground (arith, f)) (reserve_any-Chosen p p' now r (rw f at e))
]
