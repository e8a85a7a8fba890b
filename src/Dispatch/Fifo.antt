-- ===== src/Dispatch/Fifo.antt =====
-- The order in which the dispatcher of proxy/src/dispatch.rs serves.
use flock.Base.{
  ℕ, ◌≡◌, refl, Bool, some, List, [], ◌∷◌, ◌++◌, map, arith, Option-cases, inl, inr, append-nil,
  append_assoc, sym, ap, ◌∙◌, subst,
}
use flock.Dispatch.{
  Waiter, Slot, Turn, granted, left, stays, turn, Dispatcher, Event, acquires, swaps, turns, settle,
  serve, step, steps,
}
use flock.Pool.{Pool}

-- the first list comes of the second by leaving entries out
pub data Sublist : List ℕ → List ℕ → Type 0 where
  nothing : Sublist [] []
  skip : {x : ℕ} {xs ys : List ℕ} → Sublist xs ys → Sublist xs (x ∷ ys)
  keeps : {x : ℕ} {xs ys : List ℕ} → Sublist xs ys → Sublist (x ∷ xs) (x ∷ ys)

abbrev pub tickets : List Waiter → List ℕ
tickets ws = map (λ w. w.ticket) ws

abbrev pub served : List (ℕ × Slot) → List ℕ
served ss = map (λ s. s.0) ss

-- the tickets of the calls of `acquire`
abbrev pub arrivals : List Event → List ℕ
arrivals [] = []
arrivals (acquires w ∷ es) = w.ticket ∷ arrivals es
arrivals (swaps specs now ∷ es) = arrivals es
arrivals (turns gone closed now later ∷ es) = arrivals es

Sublist_refl : (xs : List ℕ) → Sublist xs xs
Sublist_refl [] = nothing
Sublist_refl (x ∷ xs) = keeps (Sublist_refl xs)

Sublist_trans : (xs ys zs : List ℕ) → Sublist xs ys → Sublist ys zs → Sublist xs zs
Sublist_trans xs ys [] a nothing = a
Sublist_trans xs ys (z ∷ zs) a (skip b) = skip (Sublist_trans xs ys zs a b)
Sublist_trans xs (y ∷ ys) (z ∷ zs) (skip a) (keeps b) = skip (Sublist_trans xs ys zs a b)
Sublist_trans (x ∷ xs) (y ∷ ys) (z ∷ zs) (keeps a) (keeps b) = keeps (Sublist_trans xs ys zs a b)

Sublist-append : (xs ys zs : List ℕ) → Sublist xs ys → Sublist (xs ++ zs) (ys ++ zs)
Sublist-append [] [] zs nothing = Sublist_refl zs
Sublist-append (x ∷ xs) [] zs s = elim s [ ]
Sublist-append xs (y ∷ ys) zs (skip s) = skip (Sublist-append xs ys zs s)
Sublist-append (x ∷ xs) (y ∷ ys) zs (keeps s) = keeps (Sublist-append xs ys zs s)

append-skip : (xs : List ℕ) (y : ℕ) (ys : List ℕ) → Sublist (xs ++ ys) (xs ++ y ∷ ys)
append-skip [] y ys = skip (Sublist_refl ys)
append-skip (x ∷ xs) y ys = keeps (append-skip xs y ys)

map-append : {A : Type 0} (f : A → ℕ) (xs ys : List A) → map f (xs ++ ys) ≡ map f xs ++ map f ys
map-append f [] ys = refl
map-append f (x ∷ xs) ys = ap (λ r. f x ∷ r) (map-append f xs ys)

-- those served, and those who wait, the first first
abbrev pub line : Dispatcher → List ℕ
line d = served d.slots ++ tickets d.queue

settle-line :
    (w : Waiter) (rest : List Waiter) (slots : List (ℕ × Slot)) (p : Pool) (t : Turn)
    → Sublist (line (settle w rest slots p t)) (served slots ++ tickets (w ∷ rest))
unfolding settle
settle-line w rest slots p (granted s) =
    subst (λ l. Sublist l (served slots ++ tickets (w ∷ rest)))
      (sym (
        ap (λ l. l ++ tickets rest) (map-append (λ x. x.0) slots ((w.ticket, s) ∷ []))
        ∙ append_assoc (served slots) (w.ticket ∷ []) (tickets rest)))
      (Sublist_refl (served slots ++ tickets (w ∷ rest)))
settle-line w rest slots p left = append-skip (served slots) w.ticket (tickets rest)
settle-line w rest slots p (stays d) = Sublist_refl (served slots ++ tickets (w ∷ rest))

serve-line :
    (queue : List Waiter) (d d' : Dispatcher) (gone closed : Bool) (now later : ℕ)
    → d.queue ≡ queue
    → serve queue d gone closed now later ≡ some d'
    → Sublist (line d') (line d)
unfolding serve
serve-line [] d d' gone closed now later q e =
    let same : d ≡ d' = ground (arith, e) in
    subst (λ x. Sublist (line x) (line d)) same (Sublist_refl (line d))
serve-line (w ∷ rest) d d' gone closed now later q e =
    elim (Option-cases (turn d.pool w gone closed now later)) [
      | inl n ↦ absurd (ground (arith, n, e))
      | inr (t, h) ↦
          let same : settle w rest d.slots t.0 t.1 ≡ d' = ground (arith, h, e) in
          subst (λ x. Sublist (line x) (line d)) same
            (subst
              (λ ws. Sublist (line (settle w rest d.slots t.0 t.1)) (served d.slots ++ tickets ws))
              (sym q) (settle-line w rest d.slots t.0 t.1))
    ]

step-line :
    (d d' : Dispatcher) (e : Event)
    → step d e ≡ some d'
    → Sublist (line d') (line d ++ arrivals (e ∷ []))
unfolding step
step-line d d' (acquires w) e =
    let same : record d { queue = d.queue ++ w ∷ [] } ≡ d' = ground (arith, e) in
    subst (λ x. Sublist (line x) (line d ++ w.ticket ∷ [])) same
      (subst (λ l. Sublist l (line d ++ w.ticket ∷ []))
        (append_assoc (served d.slots) (tickets d.queue) (w.ticket ∷ [])
          ∙ ap (λ l. served d.slots ++ l) (sym (map-append (λ x. x.ticket) d.queue (w ∷ []))))
        (Sublist_refl (line d ++ w.ticket ∷ [])))
step-line d d' (swaps specs now) e =
    let same : line d ≡ line d' = ground (arith, e) in
    subst (λ l. Sublist l (line d ++ [])) same
      (subst (λ l. Sublist (line d) l) (sym (append-nil (line d))) (Sublist_refl (line d)))
step-line d d' (turns gone closed now later) e =
    subst (λ l. Sublist (line d') l) (sym (append-nil (line d)))
      (serve-line d.queue d d' gone closed now later refl e)

arrivals-cons : (e : Event) (es : List Event) → arrivals (e ∷ es) ≡ arrivals (e ∷ []) ++ arrivals es
arrivals-cons (acquires w) es = refl
arrivals-cons (swaps specs now) es = refl
arrivals-cons (turns gone closed now later) es = refl

steps-line :
    (d d' : Dispatcher) (es : List Event)
    → steps d es ≡ some d'
    → Sublist (line d') (line d ++ arrivals es)
unfolding steps
steps-line d d' [] e =
    let same : line d ≡ line d' = ground (arith, e) in
    subst (λ l. Sublist l (line d ++ [])) same
      (subst (λ l. Sublist (line d) l) (sym (append-nil (line d))) (Sublist_refl (line d)))
steps-line d d' (e ∷ es) h = elim (Option-cases (step d e)) [
  | inl n ↦ absurd (ground (arith, n, h))
  | inr (m, f) ↦
      let first =
        Sublist-append (line m) (line d ++ arrivals (e ∷ [])) (arrivals es) (step-line d m e f) in
      let later = steps-line m d' es (ground (arith, f, h)) in
      subst (λ l. Sublist (line d') (line d ++ l)) (sym (arrivals-cons e es))
        (subst (λ l. Sublist (line d') l) (append_assoc (line d) (arrivals (e ∷ [])) (arrivals es))
          (Sublist_trans (line d') (line m ++ arrivals es)
            ((line d ++ arrivals (e ∷ [])) ++ arrivals es) later first))
]

-- The dispatcher serves in the order of arrival, whatever clients hang up, deadlines pass and
-- settings change in between: from an empty queue, the waiters that have been given a slot, in the
-- order in which they were, and then those who still wait, in the order of the queue, come of the
-- calls of `acquire`, in their order, by leaving some out.
pub served_in_order :
    (p : Pool) (es : List Event) (d : Dispatcher)
    → steps (record { queue = []; pool = p; slots = [] }) es ≡ some d
    → Sublist (served d.slots ++ tickets d.queue) (arrivals es)
served_in_order p es d e = steps-line (record { queue = []; pool = p; slots = [] }) d es e
