-- ===== src/Pool/Loads.antt =====
-- The ready lanes of a scan of proxy/src/pool.rs, and their order.
use flock.Base.{
  ℕ, zero, suc, ◌+◌, ◌≤◌, ◌<◌, ◌≡◌, refl, ◌⊎◌, inl, inr, true, false, some, List, [], ◌∷◌, arith,
  leb, length, get_elem?, In, In-if, In-if_elim, Bool-cases,
}
use flock.Pool.Lanes.{evict, Lane, refresh, take_slot}
use flock.Pool.{load_le, insert_load, sort_loads}
use flock.Pool.Scanned.{due_at, sweep}

-- a request may be sent on the lane right now
abbrev pub HasSlot : ℕ → Lane → Type 0
HasSlot now l = (l.cooldown_until ≤ now) × (length (evict now l.sent) < l.rpm)

pub take_slot-true : (now : ℕ) (l : Lane) → HasSlot now l → (take_slot now l).1 ≡ true
unfolding take_slot
take_slot-true now l h = ground arith

pub take_slot-false : (now : ℕ) (l : Lane) → (take_slot now l).1 ≡ false → ¬ HasSlot now l
unfolding take_slot
take_slot-false now l e h = ground arith

-- the requests that the lane has in its window
abbrev pub load : ℕ → Lane → ℕ
load now l = length (evict now l.sent)

due_at_now : (now : ℕ) (l : Lane) → HasSlot now l → leb (due_at now (refresh now l)) now ≡ true
unfolding due_at
due_at_now now l h = ground arith

-- every lane with a slot is among the ready ones, with its load
pub sweep-loads :
    (now n i j k : ℕ) (ls : List Lane) (l : Lane)
    → i + j ≡ k
    → get_elem? ls j ≡ some l
    → j < n
    → HasSlot now l
    → In (load now l, k) (sweep now n i ls).loads
unfolding sweep
sweep-loads now zero i j k ls l a e b h = absurd (omega arith)
sweep-loads now (suc n) i j k [] l a e b h = absurd (ground arith)
sweep-loads now (suc n) i zero k (x ∷ ls) l a e b h =
    let same : x ≡ l = ground arith in rw (same, due_at_now now l h) (inl (ground arith))
sweep-loads now (suc n) i (suc j) k (x ∷ ls) l a e b h =
    In-if (load now l, k) (load now x, i) (leb (due_at now (refresh now x)) now)
      (sweep now n (suc i) ls).loads
      (sweep-loads now n (suc i) j k ls l (omega arith) e (omega arith) h)

-- the lane behind an entry of the ready ones
pub record Visited (now n i m k : ℕ) (ls : List Lane) : Type 0 where
  pub place : ℕ
  pub lane : Lane
  pub number : k ≡ i + place
  pub bounded : place < n
  pub at : get_elem? ls place ≡ some lane
  pub measured : m ≡ load now lane

-- every ready lane is one that was visited, with its load
pub sweep-loads_lane :
    (now n i m k : ℕ) (ls : List Lane) → In (m, k) (sweep now n i ls).loads → Visited now n i m k ls
unfolding sweep
sweep-loads_lane now zero i m k ls h = absurd h
sweep-loads_lane now (suc n) i m k [] h = absurd h
sweep-loads_lane now (suc n) i m k (x ∷ ls) h =
    elim (In-if_elim (m, k) (load now x, i) (leb (due_at now (refresh now x)) now)
      (sweep now n (suc i) ls).loads h) [
        | inl (_, e) ↦ record {
          place = 0;
          lane = x;
          number = ground arith;
          bounded = omega arith;
          at = refl;
          measured = ground arith;
        }
        | inr r ↦
            let v = sweep-loads_lane now n (suc i) m k ls r in
            record {
              place = suc v.place;
              lane = v.lane;
              number = omega (arith, v.number);
              bounded = omega (arith, v.bounded);
              at = v.at;
              measured = v.measured;
            }
      ]

-- sorted in the order of pairs
abbrev pub IsSorted : List (ℕ × ℕ) → Type 0
IsSorted [] = Unit
IsSorted (a ∷ rest) = ((b : ℕ × ℕ) → In b rest → load_le a b ≡ true) × IsSorted rest

load_le_trans : (a b c : ℕ × ℕ) → load_le a b ≡ true → load_le b c ≡ true → load_le a c ≡ true
load_le_trans (a, i) (b, j) (c, k) p q = ground arith

load_le_total : (a b : ℕ × ℕ) → load_le a b ≡ false → load_le b a ≡ true
load_le_total (a, i) (b, j) p = ground arith

In-insert_load : (c a : ℕ × ℕ) (bs : List (ℕ × ℕ)) → In c (insert_load a bs) → (c ≡ a) ⊎ In c bs
unfolding insert_load
In-insert_load c a [] h = h
In-insert_load c a (b ∷ bs) h = elim (Bool-cases (load_le a b)) [
  | inl t ↦ rw t at h
  | inr f ↦ later (In-insert_load c a bs) (rw f at h)
]
  where
    later :
        (In c (insert_load a bs) → (c ≡ a) ⊎ In c bs)
        → In c (b ∷ insert_load a bs)
        → (c ≡ a) ⊎ In c (b ∷ bs)
    later ih (inl e) = inr (inl e)
    later ih (inr r) = elim (ih r) [ inl e ↦ inl e | inr m ↦ inr (inr m) ]

insert_load-In : (c a : ℕ × ℕ) (bs : List (ℕ × ℕ)) → (c ≡ a) ⊎ In c bs → In c (insert_load a bs)
unfolding insert_load
insert_load-In c a [] h = h
insert_load-In c a (b ∷ bs) h = elim (Bool-cases (load_le a b)) [
  | inl t ↦ rw t h
  | inr f ↦ rw f (later (insert_load-In c a bs) h)
]
  where
    later :
        ((c ≡ a) ⊎ In c bs → In c (insert_load a bs))
        → (c ≡ a) ⊎ In c (b ∷ bs)
        → In c (b ∷ insert_load a bs)
    later ih (inl e) = inr (ih (inl e))
    later ih (inr (inl e)) = inl e
    later ih (inr (inr m)) = inr (ih (inr m))

pub In-sort_loads : (c : ℕ × ℕ) (xs : List (ℕ × ℕ)) → In c (sort_loads xs) → In c xs
unfolding sort_loads
In-sort_loads c [] h = h
In-sort_loads c (a ∷ xs) h = elim (In-insert_load c a (sort_loads xs) h) [
  | inl e ↦ inl e
  | inr m ↦ inr (In-sort_loads c xs m)
]

pub sort_loads-In : (c : ℕ × ℕ) (xs : List (ℕ × ℕ)) → In c xs → In c (sort_loads xs)
unfolding sort_loads
sort_loads-In c [] h = h
sort_loads-In c (a ∷ xs) (inl e) = insert_load-In c a (sort_loads xs) (inl e)
sort_loads-In c (a ∷ xs) (inr m) = insert_load-In c a (sort_loads xs) (inr (sort_loads-In c xs m))

insert_load-IsSorted : (a : ℕ × ℕ) (bs : List (ℕ × ℕ)) → IsSorted bs → IsSorted (insert_load a bs)
unfolding insert_load
insert_load-IsSorted a [] s = (λ b h. absurd h, tt)
insert_load-IsSorted a (b ∷ bs) s = elim (Bool-cases (load_le a b)) [
  | inl t ↦ rw t (first t, s)
  | inr f ↦ rw f (later f, insert_load-IsSorted a bs s.1)
]
  where
    first : load_le a b ≡ true → (c : ℕ × ℕ) → In c (b ∷ bs) → load_le a c ≡ true
    first t c (inl e) = rw e t
    first t c (inr m) = load_le_trans a b c t (s.0 c m)

    below : load_le a b ≡ false → (c : ℕ × ℕ) → (c ≡ a) ⊎ In c bs → load_le b c ≡ true
    below f c (inl e) = rw e (load_le_total a b f)
    below f c (inr m) = s.0 c m

    later : load_le a b ≡ false → (c : ℕ × ℕ) → In c (insert_load a bs) → load_le b c ≡ true
    later f c h = below f c (In-insert_load c a bs h)

pub sort_loads-IsSorted : (xs : List (ℕ × ℕ)) → IsSorted (sort_loads xs)
unfolding sort_loads
sort_loads-IsSorted [] = tt
sort_loads-IsSorted (a ∷ xs) = insert_load-IsSorted a (sort_loads xs) (sort_loads-IsSorted xs)
