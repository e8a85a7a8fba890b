-- ===== src/Pool/Total.antt =====
-- A reservation of proxy/src/pool.rs does not panic.
use flock.Base.{
  ℕ, zero, suc, ◌≤◌, ◌<◌, ◌≡◌, refl, inl, inr, Bool, true, false, Option, none, some, List, [], ◌∷◌,
  arith, ltb, if◌then◌else◌, length, set, In, Bool-cases, Option-cases, length-set, get_elem?_total,
  ap, map, ◌++◌, keep, not, ◌>>=◌,
}
use flock.Pool.Lanes.{Lane, take_slot}
use flock.Pool.Loads.{sweep-loads_lane, In-sort_loads}
use flock.Pool.Sorted.{enabled_first_parts}
use flock.Pool.Scanned.{sweep, reserve_swept, reserve_any_swept}
use flock.Pool.{
  Pool, Reservation, ready, wait, try_take, sort_loads, first_ready, reserve_any, reserve_preferred,
  reserve, LaneSpec, rebuild, find_lane, lane_from,
}

-- the active lanes are lanes
abbrev pub IsBounded : Pool → Type 0
IsBounded p = p.active ≤ length p.lanes

-- an answer, and a pool with as many lanes, all the active ones among them
record Answers {A : Type 0} (p : Pool) (o : Option (Pool × A)) : Type 0 where
  pub next : Pool
  pub answer : A
  pub is : o ≡ some (next, answer)
  pub lanes_eq : length next.lanes ≡ length p.lanes
  pub active_eq : next.active ≡ p.active

try_take-Answers :
    (p : Pool) (i now : ℕ) (sticky : Bool)
    → i < length p.lanes
    → Answers p (try_take p i now sticky)
unfolding try_take
try_take-Answers p i now sticky h =
    let (l, g) = get_elem?_total p.lanes i h in
    record {
      next = record p { lanes = set p.lanes i (take_slot now l).0 };
      answer = if (take_slot now l).1 then some (ready i l.key now sticky) else none;
      is = ground (arith, g);
      lanes_eq = length-set p.lanes i (take_slot now l).0;
      active_eq = refl;
    }

abbrev Within : ℕ → List (ℕ × ℕ) → Type 0
Within n [] = Unit
Within n ((m, j) ∷ rest) = (j < n) × Within n rest

first_ready-Answers :
    (p : Pool) (now best : ℕ) (loads : List (ℕ × ℕ))
    → Within (length p.lanes) loads
    → Answers p (first_ready p now loads best)
unfolding first_ready
first_ready-Answers p now best [] w = record {
  next = p;
  answer = wait best;
  is = refl;
  lanes_eq = refl;
  active_eq = refl;
}
first_ready-Answers p now best ((m, j) ∷ rest) w =
    go (try_take-Answers p j now false w.0) (λ q. first_ready-Answers q now best rest)
  where
    go :
        Answers p (try_take p j now false)
        → ((q : Pool) → Within (length q.lanes) rest → Answers q (first_ready q now rest best))
        → Answers p (first_ready p now ((m, j) ∷ rest) best)
    go t ih = elim (Option-cases t.answer) [
      | inl n ↦
          let a = ih t.next (rw t.lanes_eq w.1) in
          record {
            next = a.next;
            answer = a.answer;
            is = ground (arith, t.is, n, a.is);
            lanes_eq = omega (arith, a.lanes_eq, t.lanes_eq);
            active_eq = omega (arith, a.active_eq, t.active_eq);
          }
      | inr (r, s) ↦ record {
        next = t.next;
        answer = r;
        is = ground (arith, t.is, s);
        lanes_eq = t.lanes_eq;
        active_eq = t.active_eq;
      }
    ]

In-Within : (n : ℕ) (loads : List (ℕ × ℕ)) → ((m j : ℕ) → In (m, j) loads → j < n) → Within n loads
In-Within n [] h = tt
In-Within n ((m, j) ∷ rest) h = (h m j (inl refl), In-Within n rest (λ m' j' i. h m' j' (inr i)))

length-sweep : (now n i : ℕ) (ls : List Lane) → length (sweep now n i ls).lanes ≡ length ls
unfolding sweep
length-sweep now zero i ls = refl
length-sweep now (suc n) i [] = refl
length-sweep now (suc n) i (l ∷ ls) = ap suc (length-sweep now n (suc i) ls)

sweep-Within :
    (p : Pool) (now : ℕ)
    → p.active ≤ length p.lanes
    → Within (length p.lanes) (sort_loads (sweep now p.active 0 p.lanes).loads)
sweep-Within p now b =
    In-Within (length p.lanes) (sort_loads (sweep now p.active 0 p.lanes).loads) (λ m j i.
      let v =
        sweep-loads_lane now p.active 0 m j p.lanes
          (In-sort_loads (m, j) (sweep now p.active 0 p.lanes).loads i) in
      omega (arith, v.number, v.bounded))

reserve_swept-Answers :
    (p : Pool) (now : ℕ) → p.active ≤ length p.lanes → Answers p (reserve_swept p now)
unfolding reserve_swept
reserve_swept-Answers p now b = elim (Bool-cases (ltb (length p.lanes) p.active)) [
  | inl t ↦ absurd (ground (arith, t))
  | inr f ↦
      let s = sweep now p.active 0 p.lanes in
      let same = length-sweep now p.active 0 p.lanes in
      let a =
        first_ready-Answers (record p { lanes = s.lanes }) now s.best_wait (sort_loads s.loads)
          (rw same (sweep-Within p now b)) in
      record {
        next = a.next;
        answer = a.answer;
        is = rw f a.is;
        lanes_eq = omega (arith, a.lanes_eq, same);
        active_eq = a.active_eq;
      }
]

reserve_any-Answers :
    (p : Pool) (now : ℕ) → p.active ≤ length p.lanes → Answers p (reserve_any p now)
reserve_any-Answers p now b = rw (reserve_any_swept p now) (reserve_swept-Answers p now b)

reserve_preferred-Answers :
    (p : Pool) (i now : ℕ)
    → i < p.active
    → p.active ≤ length p.lanes
    → Answers p (reserve_preferred p i now)
unfolding reserve_preferred
reserve_preferred-Answers p i now c b = go (try_take-Answers p i now true (omega (arith, c, b)))
  where
    go : Answers p (try_take p i now true) → Answers p (reserve_preferred p i now)
    go t = elim (Option-cases t.answer) [
      | inl n ↦
          let a = reserve_any-Answers t.next now (omega (arith, b, t.lanes_eq, t.active_eq)) in
          record {
            next = a.next;
            answer = a.answer;
            is = ground (arith, t.is, n, a.is);
            lanes_eq = omega (arith, a.lanes_eq, t.lanes_eq);
            active_eq = omega (arith, a.active_eq, t.active_eq);
          }
      | inr (r, s) ↦ record {
        next = t.next;
        answer = r;
        is = ground (arith, t.is, s);
        lanes_eq = t.lanes_eq;
        active_eq = t.active_eq;
      }
    ]

reserve-Answers :
    (p : Pool) (prefer : Option ℕ) (now : ℕ)
    → p.active ≤ length p.lanes
    → Answers p (reserve p prefer now)
unfolding reserve
reserve-Answers p none now b = reserve_any-Answers p now b
reserve-Answers p (some i) now b = elim (Bool-cases (ltb i p.active)) [
  | inl t ↦ rw t (reserve_preferred-Answers p i now (ground (arith, t)) b)
  | inr f ↦ rw f (reserve_any-Answers p now b)
]

keeps-append : {A B : Type 0} (f : A → B) (xs ys : List A) → length xs ≤ length (map f (xs ++ ys))
keeps-append f [] ys = omega arith
keeps-append f (x ∷ xs) ys = omega (arith, keeps-append f xs ys)

rebuild-IsBounded : (p : Pool) (specs : List LaneSpec) (now : ℕ) → IsBounded (rebuild p specs now)
unfolding rebuild
rebuild-IsBounded p specs now = rw (enabled_first_parts specs) (
    keeps-append (λ s. lane_from now s (find_lane s.key p.lanes)) (keep (λ s. s.enabled) specs)
      (keep (λ s. not s.enabled) specs))

-- reservations one after another, each with its preference and its time
unfoldable pub reserve_each : Pool → List (Option ℕ × ℕ) → Option (Pool × List Reservation)
reserve_each p [] = some (p, [])
reserve_each p ((prefer, now) ∷ rest) = do
  one ← reserve p prefer now
  more ← reserve_each one.0 rest
  some (more.0, one.1 ∷ more.1)

reserve_each_total :
    (p : Pool) (asks : List (Option ℕ × ℕ))
    → p.active ≤ length p.lanes
    → (a : Pool × List Reservation) × (reserve_each p asks ≡ some a) × (length a.1 ≡ length asks)
unfolding reserve_each
reserve_each_total p [] b = ((p, []), refl, refl)
reserve_each_total p ((prefer, now) ∷ rest) b =
    let a = reserve-Answers p prefer now b in
    let (m, e, n) = reserve_each_total a.next rest (omega (arith, b, a.lanes_eq, a.active_eq)) in
    ((m.0, a.answer ∷ m.1), rw (a.is, e) refl, ap suc n)

-- A pool that comes out of a settings change answers every sequence of reservations, whatever they
-- prefer and whenever they are made, with as many answers and no panic.
pub reserve_each-rebuild_total :
    (p : Pool) (specs : List LaneSpec) (now : ℕ) (asks : List (Option ℕ × ℕ))
    → (a : Pool × List Reservation) × (reserve_each (rebuild p specs now) asks ≡ some a)
      × (length a.1 ≡ length asks)
reserve_each-rebuild_total p specs now asks =
    reserve_each_total (rebuild p specs now) asks (rebuild-IsBounded p specs now)
