-- ===== src/Dispatch/Returned.antt =====
-- The slot of a client that hung up, in proxy/src/dispatch.rs.
use flock.Base.{
  ℕ, zero, suc, ◌+◌, ◌≡◌, Bool, true, false, none, some, List, [], ◌∷◌, ◌++◌, arith, Option-cases,
  inl, inr, ap, String, set, get_elem?, Bool-cases, ltb,
}
use flock.Pool.Lanes.{Lane, evict, has, remove_last}
use flock.Pool.{Pool, Reservation, ready, wait, reserve, release}
use flock.Pool.Moves.{Moved, MovedAll, MovedAll-refl, Reserved, reserve-Reserved}
use flock.Pool.Keys.{MovedAll-none}
use flock.Dispatch.{Waiter, Turn, granted, answer, turn}

has-append : (t : ℕ) (xs : List ℕ) → has t (xs ++ t ∷ []) ≡ true
unfolding has
has-append t [] = ground arith
has-append t (x ∷ xs) = ground (arith, has-append t xs)

remove_last-append : (t : ℕ) (xs : List ℕ) → remove_last t (xs ++ t ∷ []) ≡ xs
unfolding remove_last has
remove_last-append t [] = ground arith
remove_last-append t (x ∷ xs) = rw (has-append t xs) (ap (λ r. x ∷ r) (remove_last-append t xs))

abbrev returned : ℕ → Lane → Lane
returned now l = record l { sent = remove_last now l.sent }

returned-Moved : (now : ℕ) (x l : Lane) → Moved now x l true → Moved now x (returned now l) false
returned-Moved now x l m = inr (ground (arith, m.0, remove_last-append now (evict now x.sent)))

returned-MovedAll :
    (now i j h : ℕ) (ls ls' : List Lane) (l : Lane)
    → i + j ≡ h
    → MovedAll now (some h) i ls ls'
    → get_elem? ls' j ≡ some l
    → MovedAll now none i ls (set ls' j (returned now l))
returned-MovedAll now i j h [] [] l a m g = tt
returned-MovedAll now i j h [] (x' ∷ ls') l a m g = absurd m
returned-MovedAll now i j h (x ∷ ls) [] l a m g = absurd m
returned-MovedAll now i zero h (x ∷ ls) (x' ∷ ls') l a m g = (
  returned-Moved now x l (ground (arith, g, a, m.0)),
  MovedAll-none now h (suc i) ls ls' (omega arith) m.1,
)
returned-MovedAll now i (suc j) h (x ∷ ls) (x' ∷ ls') l a m g =
    (ground (arith, a, m.0), returned-MovedAll now (suc i) j h ls ls' l (omega arith) m.1 g)

release-MovedAll :
    (p q p' : Pool) (i now stamp : ℕ) (key : String) (sticky : Bool)
    → Reserved now p.lanes p.active q (ready i key stamp sticky)
    → release q i stamp ≡ some p'
    → MovedAll now none 0 p.lanes p'.lanes × (p'.active ≡ p.active)
unfolding release
release-MovedAll p q p' i now stamp key sticky (m, a, (s, k)) e =
    elim (Option-cases (get_elem? q.lanes i)) [
      | inl n ↦ absurd (ground (arith, n, e))
      | inr (l, g) ↦
          let back = returned-MovedAll now 0 i i p.lanes q.lanes l (omega arith) m g in
          ground (arith, g, e, s, a, back)
    ]

abbrev pub IsUnserved : Turn → Type 0
IsUnserved (granted s) = ⊥
IsUnserved _ = Unit

-- the pool is as before, but for stamps that have left a window, and no slot is given
abbrev pub Untaken : ℕ → Pool → Pool → Turn → Type 0
Untaken now p p' t = MovedAll now none 0 p.lanes p'.lanes × (p'.active ≡ p.active) × IsUnserved t

answer-Untaken :
    (p q p' : Pool) (w : Waiter) (r : Reservation) (now later : ℕ) (t : Turn)
    → Reserved now p.lanes p.active q r
    → answer q w r true later ≡ some (p', t)
    → Untaken now p p' t
unfolding answer
answer-Untaken p q p' w (ready i key stamp sticky) now later t m e =
    elim (Option-cases (release q i stamp)) [
      | inl n ↦ absurd (ground (arith, n, e))
      | inr (q', h) ↦
          let (moved, active) = release-MovedAll p q q' i now stamp key sticky m h in
          ground (arith, h, e, moved, active)
    ]
answer-Untaken p q p' w (wait d) now later t m e = elim (Bool-cases (ltb w.deadline (later + d))) [
  | inl y ↦ ground (arith, e, y, m.0, m.1)
  | inr n ↦ ground (arith, e, n, m.0, m.1)
]

-- A client that is gone, or whose reply is closed by the time it is sent, takes nothing: whatever
-- the turn meets, it gives no slot, and it leaves the lanes of the pool as they were but for stamps
-- that have left their window.
pub turn-Untaken :
    (p p' : Pool) (w : Waiter) (gone : Bool) (now later : ℕ) (t : Turn)
    → turn p w gone true now later ≡ some (p', t)
    → Untaken now p p' t
unfolding turn
turn-Untaken p p' w true now later t e = ground (arith, e, MovedAll-refl now 0 p.lanes)
turn-Untaken p p' w false now later t e = elim (Option-cases (reserve p w.prefer now)) [
  | inl n ↦ absurd (ground (arith, n, e))
  | inr ((q, r), h) ↦
      answer-Untaken p q p' w r now later t (reserve-Reserved now w.prefer p q r h)
        (ground (arith, h, e))
]
