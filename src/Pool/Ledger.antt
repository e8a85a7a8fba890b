-- ===== src/Pool/Ledger.antt =====
-- The rolling budget of one lane of proxy/src/pool.rs: its unreturned grants, kept for ever in a
-- log, against the stamps that the lane still remembers.
use flock.Base.{
  ℕ, ◌+◌, ◌≤◌, ◌<◌, ◌≡◌, refl, ◌⊎◌, inl, inr, Bool, true, false, ◌&&◌, List, [], ◌∷◌, ◌++◌, arith,
  leb, ltb, ◌||◌, if◌then◌else◌, length, ap, ◌∙◌, All, All-append, Bool-cases,
}
use mathlib.Core.List.{append_assoc}
use flock.Pool.Lanes.{window, evict, Lane, refresh, has, remove_last}
use flock.Pool.Window.{Expired, dropped, dropped-append-evict, dropped-Expired}
use flock.Pool.Moves.{Moved}

-- how many stamps lie in the 61 s that begin at `t`
unfoldable pub in_span : ℕ → List ℕ → ℕ
in_span t [] = 0
in_span t (s ∷ ss) = (if leb t s && ltb s (t + window) then 1 else 0) + in_span t ss

pub in_span-append : (t : ℕ) (xs ys : List ℕ) → in_span t (xs ++ ys) ≡ in_span t xs + in_span t ys
unfolding in_span
in_span-append t [] ys = omega arith
in_span-append t (x ∷ xs) ys = omega (arith, in_span-append t xs ys)

pub in_span-le-length : (t : ℕ) (xs : List ℕ) → in_span t xs ≤ length xs
unfolding in_span
in_span-le-length t [] = omega arith
in_span-le-length t (x ∷ xs) = ground (arith, in_span-le-length t xs)

-- a span that holds `now` holds nothing that has left the window by then
in_span-Expired :
    (t now : ℕ) (xs : List ℕ) → now < t + window → All (Expired now) xs → in_span t xs ≡ 0
unfolding in_span
in_span-Expired t now [] h e = refl
in_span-Expired t now (x ∷ xs) h e = ground (arith, in_span-Expired t now xs h e.1)

in_span_one :
    (t now : ℕ) → (in_span t (now ∷ []) ≡ 0) ⊎ ((in_span t (now ∷ []) ≡ 1) × (now < t + window))
unfolding in_span
in_span_one t now = ground arith

Expired-later :
    (now later : ℕ) (xs : List ℕ) → now ≤ later → All (Expired now) xs → All (Expired later) xs
Expired-later now later [] h e = tt
Expired-later now later (x ∷ xs) h e = (omega arith, Expired-later now later xs h e.1)

-- The log is what the lane has forgotten, all of it out of the window by `now`, and what it
-- remembers; and no 61 s hold more than `r` entries of it.
pub record Ledger (r now : ℕ) (l : Lane) (log : List ℕ) : Type 0 where
  pub gone : List ℕ
  pub split : log ≡ gone ++ l.sent
  pub expired : All (Expired now) gone
  pub within : (t : ℕ) → in_span t log ≤ r

pub Ledger-later :
    (r now later : ℕ) (l : Lane) (log : List ℕ)
    → now ≤ later
    → Ledger r now l log
    → Ledger r later l log
Ledger-later r now later l log h g = record {
  gone = g.gone;
  split = g.split;
  expired = Expired-later now later g.gone h g.expired;
  within = g.within;
}

pub Ledger-refresh :
    (r now : ℕ) (l : Lane) (log : List ℕ) → Ledger r now l log → Ledger r now (refresh now l) log
Ledger-refresh r now l log g = record {
  gone = g.gone ++ dropped now l.sent;
  split = rw (append_assoc, dropped-append-evict) g.split;
  expired =
      All-append (Expired now) g.gone (dropped now l.sent) g.expired (dropped-Expired now l.sent);
  within = g.within;
}

take-within :
    (r now : ℕ) (gone log sent : List ℕ) (t : ℕ)
    → log ≡ gone ++ sent
    → All (Expired now) gone
    → in_span t log ≤ r
    → length sent < r
    → in_span t (log ++ now ∷ []) ≤ r
take-within r now gone log sent t e x w b = ground (
  arith,
  in_span-append t log (now ∷ []),
  in_span_one t now,
  in_span-Expired t now gone,
  in_span-append t gone sent,
  in_span-le-length t sent,
  ap (in_span t) e,
)

pub Ledger-take :
    (r now : ℕ) (l : Lane) (log : List ℕ)
    → length (evict now l.sent) < r
    → Ledger r now l log
    → Ledger r now (record l { sent = evict now l.sent ++ now ∷ [] }) (log ++ now ∷ [])
Ledger-take r now l log b g = record {
  gone = g'.gone;
  split =
      rw (← append_assoc g'.gone (evict now l.sent) (now ∷ []))
        (ap (λ xs. xs ++ now ∷ []) g'.split);
  expired = g'.expired;
  within =
      λ t. take-within r now g'.gone log (evict now l.sent) t g'.split g'.expired (g'.within t) b;
}
  where
    g' : Ledger r now (refresh now l) log
    g' = Ledger-refresh r now l log g

has-append : (a : ℕ) (xs ys : List ℕ) → has a (xs ++ ys) ≡ (has a xs || has a ys)
unfolding has
has-append a [] ys = refl
has-append a (x ∷ xs) ys = ground (arith, has-append a xs ys)

remove_last_absent : (a : ℕ) (xs : List ℕ) → has a xs ≡ false → remove_last a xs ≡ xs
unfolding remove_last has
remove_last_absent a [] h = refl
remove_last_absent a (x ∷ xs) h = ground (arith, remove_last_absent a xs)

remove_last-append :
    (a : ℕ) (xs ys : List ℕ)
    → remove_last a (xs ++ ys)
      ≡ (if has a ys then xs ++ remove_last a ys else remove_last a xs ++ remove_last a ys)
unfolding remove_last has
remove_last-append a [] ys = ground arith
remove_last-append a (x ∷ xs) ys =
    ground (arith, has-append a xs ys, remove_last-append a xs ys, remove_last_absent a ys)

in_span-remove_last : (t a : ℕ) (xs : List ℕ) → in_span t (remove_last a xs) ≤ in_span t xs
unfolding remove_last in_span
in_span-remove_last t a [] = omega arith
in_span-remove_last t a (x ∷ xs) = ground (arith, in_span-remove_last t a xs)

remove_last-Expired :
    (now a : ℕ) (xs : List ℕ) → All (Expired now) xs → All (Expired now) (remove_last a xs)
unfolding remove_last
remove_last-Expired now a [] e = tt
remove_last-Expired now a (x ∷ xs) e = ground (arith, remove_last-Expired now a xs e.1)

pub Ledger-release :
    (r now stamp : ℕ) (l : Lane) (log : List ℕ)
    → Ledger r now l log
    → Ledger r now (record l { sent = remove_last stamp l.sent }) (remove_last stamp log)
Ledger-release r now stamp l log g = elim (Bool-cases (has stamp l.sent)) [
  | inl here ↦ record {
    gone = g.gone;
    split = ap (remove_last stamp) g.split ∙ remove_last-append stamp g.gone l.sent ∙ rw here;
    expired = g.expired;
    within = lower;
  }
  | inr away ↦ record {
    gone = remove_last stamp g.gone;
    split = ap (remove_last stamp) g.split ∙ remove_last-append stamp g.gone l.sent ∙ rw away;
    expired = remove_last-Expired now stamp g.gone g.expired;
    within = lower;
  }
]
  where
    lower : (t : ℕ) → in_span t (remove_last stamp log) ≤ r
    lower t = omega (arith, in_span-remove_last t stamp log, g.within t)

pub Ledger-Moved :
    (r now : ℕ) (l l' : Lane) (log : List ℕ) (taken : Bool)
    → l.rpm ≤ r
    → Moved now l l' taken
    → Ledger r now l log
    → Ledger r now l' (if taken then log ++ now ∷ [] else log)
Ledger-Moved r now l l' log true b m g = rw (m.0) (Ledger-take r now l log (omega (arith, m.2)) g)
Ledger-Moved r now l l' log false b (inl e) g = rw e g
Ledger-Moved r now l l' log false b (inr e) g = rw e (Ledger-refresh r now l log g)
