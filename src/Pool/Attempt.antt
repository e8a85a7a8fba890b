-- ===== src/Pool/Attempt.antt =====
-- The attempts of a reservation of proxy/src/pool.rs: one lane, and the sorted ready ones in turn.
use flock.Base.{
  ℕ, ◌≡◌, refl, inl, inr, Bool, true, false, Option, none, some, List, [], ◌∷◌, arith, get_elem?,
  In, Bool-cases, Option-cases, get_elem?-set_ne, get_elem?-set_self, get_elem?_bound, String,
  subst, sym,
}
use native.Mathlib.Decide.{ℕ_discrete}
use flock.Pool.Lanes.{Lane, take_slot}
use flock.Pool.Window.{evict_idem}
use flock.Pool.Loads.{HasSlot, take_slot-true, IsSorted}
use flock.Pool.{Pool, Reservation, ready, wait, load_le, try_take, first_ready}

pub failed_take :
    (p p' : Pool) (i now : ℕ) (sticky : Bool) (l : Lane)
    → try_take p i now sticky ≡ some (p', none)
    → get_elem? p.lanes i ≡ some l
    → ¬ HasSlot now l
unfolding try_take
failed_take p p' i now sticky l e g h = ground (arith, e, g, take_slot-true now l h)

-- a failed attempt leaves every lane that has a slot as it was
pub failed_take_keeps :
    (p p' : Pool) (i now j : ℕ) (sticky : Bool) (l : Lane)
    → try_take p i now sticky ≡ some (p', none)
    → get_elem? p.lanes j ≡ some l
    → HasSlot now l
    → get_elem? p'.lanes j ≡ some l
unfolding try_take
failed_take_keeps p p' i now j sticky l e g h = elim (ℕ_discrete i j) [
  | yes same ↦ absurd (failed_take p p' i now sticky l e (rw same g) h)
  | no other ↦ elim (Option-cases (get_elem? p.lanes i)) [
    | inl n ↦ absurd (ground (arith, n, e))
    | inr (x, q) ↦
        let kept = get_elem?-set_ne p.lanes i j (take_slot now x).0 other in
        ground (arith, q, e, kept, g)
  ]
]

-- what a successful attempt took
pub record Taken (p : Pool) (i now : ℕ) (sticky : Bool) (r : Reservation) : Type 0 where
  pub lane : Lane
  pub at : get_elem? p.lanes i ≡ some lane
  pub free : HasSlot now lane
  pub answer : r ≡ ready i lane.key now sticky

slot_of_taken : (now : ℕ) (l : Lane) → (take_slot now l).1 ≡ true → HasSlot now l
unfolding take_slot
slot_of_taken now l e = ground (arith, e)

pub try_take-Taken :
    (p p' : Pool) (i now : ℕ) (sticky : Bool) (r : Reservation)
    → try_take p i now sticky ≡ some (p', some r)
    → Taken p i now sticky r
unfolding try_take
try_take-Taken p p' i now sticky r e = elim (Option-cases (get_elem? p.lanes i)) [
  | inl n ↦ absurd (ground (arith, n, e))
  | inr (l, q) ↦ elim (Bool-cases (take_slot now l).1) [
    | inl t ↦ record {
      lane = l;
      at = q;
      free = slot_of_taken now l t;
      answer = ground (arith, q, e, t);
    }
    | inr f ↦ absurd (ground (arith, q, e, f))
  ]
]

pub first_ready-wait :
    (p p' : Pool) (now best d m i : ℕ) (loads : List (ℕ × ℕ)) (l : Lane)
    → first_ready p now loads best ≡ some (p', wait d)
    → In (m, i) loads
    → get_elem? p.lanes i ≡ some l
    → ¬ HasSlot now l
unfolding first_ready
first_ready-wait p p' now best d m i [] l e h g s = absurd h
first_ready-wait p p' now best d m i ((n, j) ∷ rest) l e h g s =
    elim (Option-cases (try_take p j now false)) [
      | inl z ↦ absurd (ground (arith, z, e))
      | inr ((q, some r), t) ↦
          let took = try_take-Taken p q j now false r t in
          absurd (ground (arith, t, e, took.answer))
      | inr ((q, none), t) ↦ elim h [
        | inl same ↦ failed_take p q j now false l t (ground (arith, same, g)) s
        | inr later ↦
            first_ready-wait q p' now best d m i rest l (ground (arith, t, e)) later
              (failed_take_keeps p q j now i false l t g s) s
      ]
    ]

failed_slot : (now : ℕ) (l : Lane) → (take_slot now l).1 ≡ false → ¬ HasSlot now (take_slot now l).0
unfolding take_slot
failed_slot now l e h = ground (arith, e, h, evict_idem now l.sent)

-- a failed attempt gives no lane a slot
pub failed_take_origin :
    (p p' : Pool) (i now j : ℕ) (sticky : Bool) (l : Lane)
    → try_take p i now sticky ≡ some (p', none)
    → get_elem? p'.lanes j ≡ some l
    → HasSlot now l
    → get_elem? p.lanes j ≡ some l
unfolding try_take
failed_take_origin p p' i now j sticky l e g h = elim (Option-cases (get_elem? p.lanes i)) [
  | inl n ↦ absurd (ground (arith, n, e))
  | inr (x, q) ↦ elim (ℕ_discrete i j) [
    | yes same ↦
        let inside = get_elem?_bound p.lanes i x q in
        let put = get_elem?-set_self p.lanes i (take_slot now x).0 inside in
        let failed : (take_slot now x).1 ≡ false = ground (arith, q, e) in
        let is : l ≡ (take_slot now x).0 = ground (arith, q, e, put, g, same) in
        absurd (failed_slot now x failed (rw is at h))
    | no other ↦
        let kept = get_elem?-set_ne p.lanes i j (take_slot now x).0 other in
        ground (arith, q, e, kept, g)
  ]
]

-- the lane that the loop over the sorted lanes took, and its place among them
pub record Head (p : Pool) (now i : ℕ) (sticky : Bool) (loads : List (ℕ × ℕ)) : Type 0 where
  pub lane : Lane
  pub measure : ℕ
  pub at : get_elem? p.lanes i ≡ some lane
  pub free : HasSlot now lane
  pub among : In (measure, i) loads
  pub unsticky : sticky ≡ false
  pub least :
      (n j : ℕ) (l : Lane)
      → In (n, j) loads
      → get_elem? p.lanes j ≡ some l
      → HasSlot now l
      → load_le (measure, i) (n, j) ≡ true

pub first_ready-Head :
    (p p' : Pool) (now best i stamp : ℕ) (key : String) (sticky : Bool) (loads : List (ℕ × ℕ))
    → IsSorted loads
    → first_ready p now loads best ≡ some (p', ready i key stamp sticky)
    → Head p now i sticky loads
unfolding first_ready
first_ready-Head p p' now best i stamp key sticky [] s e = absurd (ground (arith, e))
first_ready-Head p p' now best i stamp key sticky ((n, j) ∷ rest) s e =
    elim (Option-cases (try_take p j now false)) [
      | inl z ↦ absurd (ground (arith, z, e))
      | inr ((q, some r), t) ↦
          let took = try_take-Taken p q j now false r t in
          let same : j ≡ i = ground (arith, t, e, took.answer) in
          record {
            lane = took.lane;
            measure = n;
            at = rw (sym same) took.at;
            free = took.free;
            among = inl (rw same refl);
            unsticky = ground (arith, t, e, took.answer);
            least = λ n' j' l m g h. elim m [
              | inl is ↦ ground (arith, is, same)
              | inr later ↦ subst (λ x. load_le (n, x) (n', j') ≡ true) same (s.0 (n', j') later)
            ];
          }
      | inr ((q, none), t) ↦
          let head =
            first_ready-Head q p' now best i stamp key sticky rest s.1 (ground (arith, t, e)) in
          record {
            lane = head.lane;
            measure = head.measure;
            at = failed_take_origin p q j now i false head.lane t head.at head.free;
            free = head.free;
            among = inr head.among;
            unsticky = head.unsticky;
            least = λ n' j' l m g h. elim m [
              | inl is ↦ absurd (failed_take p q j now false l t (ground (arith, is, g)) h)
              | inr later ↦
                  head.least n' j' l later (failed_take_keeps p q j now j' false l t g h) h
            ];
          }
    ]

pub try_take_active :
    (p q : Pool) (i now : ℕ) (sticky : Bool) (r : Option Reservation)
    → try_take p i now sticky ≡ some (q, r)
    → q.active ≡ p.active
unfolding try_take
try_take_active p q i now sticky r e = elim (Option-cases (get_elem? p.lanes i)) [
  | inl n ↦ absurd (ground (arith, n, e))
  | inr (l, g) ↦ ground (arith, g, e)
]
