-- ===== src/Pool/Keys.antt =====
-- The lanes of proxy/src/pool.rs by their keys.
use flock.Base.{
  ℕ, zero, suc, ◌+◌, ◌<◌, ◌≡◌, refl, ◌⊎◌, Bool, true, false, Option, none, some, List, [], ◌∷◌,
  arith, ite, ◌==◌, if◌then◌else◌, get_elem?, set, String, String-discrete,
}
use flock.Pool.Lanes.{Lane}
use flock.Pool.{find_lane}
use flock.Pool.Moves.{Moved, MovedAll, is_lane, key_at, Moved-key}

-- no two lanes have one key
abbrev pub Distinct : List Lane → Type 0
Distinct [] = Unit
Distinct (l ∷ ls) = (find_lane l.key ls ≡ none) × Distinct ls

find_lane-moved :
    (now i : ℕ) (g : Option ℕ) (k : String) (ls ls' : List Lane)
    → MovedAll now g i ls ls'
    → find_lane k ls ≡ none
    → find_lane k ls' ≡ none
unfolding find_lane
find_lane-moved now i g k [] [] m n = refl
find_lane-moved now i g k [] (l' ∷ ls') m n = absurd m
find_lane-moved now i g k (l ∷ ls) [] m n = refl
find_lane-moved now i g k (l ∷ ls) (l' ∷ ls') m n =
    ground (arith, Moved-key now l l' (is_lane g i) m.0, find_lane-moved now (suc i) g k ls ls' m.1)

pub Distinct-moved :
    (now i : ℕ) (g : Option ℕ) (ls ls' : List Lane)
    → MovedAll now g i ls ls'
    → Distinct ls
    → Distinct ls'
Distinct-moved now i g [] [] m d = tt
Distinct-moved now i g [] (l' ∷ ls') m d = absurd m
Distinct-moved now i g (l ∷ ls) [] m d = tt
Distinct-moved now i g (l ∷ ls) (l' ∷ ls') m d = (
  rw (Moved-key now l l' (is_lane g i) m.0) (find_lane-moved now (suc i) g l.key ls ls' m.1 d.0),
  Distinct-moved now (suc i) g ls ls' m.1 d.1,
)

-- whether the key of lane `g`, of lanes that are numbered from `i`, is `k`
abbrev pub is_key : Option String → String → Bool
is_key none k = false
is_key (some j) k = ite (String-discrete j k) true false

key_at-absent :
    (k : String) (ls : List Lane) (j : ℕ) → find_lane k ls ≡ none → is_key (key_at ls j) k ≡ false
unfolding find_lane
key_at-absent k [] j n = refl
key_at-absent k (l ∷ ls) zero n = ground arith
key_at-absent k (l ∷ ls) (suc j) n = ground (arith, key_at-absent k ls j)

pub MovedAll-none :
    (now h i : ℕ) (ls ls' : List Lane)
    → h < i
    → MovedAll now (some h) i ls ls'
    → MovedAll now none i ls ls'
MovedAll-none now h i [] [] b m = tt
MovedAll-none now h i [] (x' ∷ ls') b m = m
MovedAll-none now h i (x ∷ ls) [] b m = m
MovedAll-none now h i (x ∷ ls) (x' ∷ ls') b m =
    (ground arith, MovedAll-none now h (suc i) ls ls' (omega arith) m.1)

-- the lane of a key, where no lane gave a slot
pub find_lane-kept :
    (now i : ℕ) (k : String) (ls ls' : List Lane) (l : Lane)
    → MovedAll now none i ls ls'
    → find_lane k ls ≡ some l
    → (l' : Lane) × (find_lane k ls' ≡ some l') × Moved now l l' false
unfolding find_lane
find_lane-kept now i k [] ls' l m f = absurd (ground arith)
find_lane-kept now i k (x ∷ ls) [] l m f = absurd m
find_lane-kept now i k (x ∷ ls) (x' ∷ ls') l m f = elim (String-discrete x.key k) [
  | yes e ↦ (x', ground (arith, Moved-key now x x' false m.0), ground arith)
  | no e ↦
      let (l', f', m') = find_lane-kept now (suc i) k ls ls' l m.1 (ground arith) in
      (l', ground (arith, f', Moved-key now x x' false m.0), m')
]

-- Where lane `h` may have given a slot, the lane of a key did exactly if `h` is its lane.
pub find_lane-Moved :
    (now i j h : ℕ) (k : String) (ls ls' : List Lane) (l : Lane)
    → i + j ≡ h
    → MovedAll now (some h) i ls ls'
    → Distinct ls
    → find_lane k ls ≡ some l
    → (l' : Lane) × (find_lane k ls' ≡ some l') × Moved now l l' (is_key (key_at ls j) k)
unfolding find_lane
find_lane-Moved now i j h k [] ls' l a m d f = absurd (ground arith)
find_lane-Moved now i j h k (x ∷ ls) [] l a m d f = absurd m
find_lane-Moved now i zero h k (x ∷ ls) (x' ∷ ls') l a m d f = elim (String-discrete x.key k) [
  | yes e ↦ (x', ground (arith, Moved-key now x x' (h == i) m.0), ground arith)
  | no e ↦
      let (l', f', m') =
        find_lane-kept now (suc i) k ls ls' l (MovedAll-none now h (suc i) ls ls' (omega arith) m.1)
          (ground arith) in
      (l', ground (arith, f', Moved-key now x x' (h == i) m.0), ground (arith, m'))
]
find_lane-Moved now i (suc j) h k (x ∷ ls) (x' ∷ ls') l a m d f = elim (String-discrete x.key k) [
  | yes e ↦ (
    x',
    ground (arith, Moved-key now x x' (h == i) m.0),
    ground (arith, key_at-absent x.key ls j d.0),
  )
  | no e ↦
      let (l', f', m') =
        find_lane-Moved now (suc i) j h k ls ls' l (omega arith) m.1 d.1 (ground arith) in
      (l', ground (arith, f', Moved-key now x x' (h == i) m.0), m')
]

-- a write to lane `i` that keeps its key
module _ (x' : Lane) where
  find_lane-set_absent :
      (k : String) (ls : List Lane) (i : ℕ) (x : Lane)
      → get_elem? ls i ≡ some x
      → x'.key ≡ x.key
      → find_lane k ls ≡ none
      → find_lane k (set ls i x') ≡ none
  unfolding find_lane
  find_lane-set_absent k [] i x g e n = refl
  find_lane-set_absent k (l ∷ ls) zero x g e n = ground arith
  find_lane-set_absent k (l ∷ ls) (suc i) x g e n =
      ground (arith, find_lane-set_absent k ls i x g e)

  pub Distinct-set :
      (ls : List Lane) (i : ℕ) (x : Lane)
      → get_elem? ls i ≡ some x
      → x'.key ≡ x.key
      → Distinct ls
      → Distinct (set ls i x')
  Distinct-set [] i x g e d = tt
  Distinct-set (l ∷ ls) zero x g e d = ground arith
  Distinct-set (l ∷ ls) (suc i) x g e d =
      (find_lane-set_absent l.key ls i x g e d.0, Distinct-set ls i x g e d.1)

  pub find_lane-set :
      (k : String) (ls : List Lane) (i : ℕ) (x l : Lane)
      → get_elem? ls i ≡ some x
      → x'.key ≡ x.key
      → Distinct ls
      → find_lane k ls ≡ some l
      → (find_lane k (set ls i x') ≡ some (if is_key (key_at ls i) k then x' else l))
        × ((is_key (key_at ls i) k ≡ false) ⊎ (l ≡ x))
  unfolding find_lane
  find_lane-set k [] i x l g e d f = absurd (ground arith)
  find_lane-set k (y ∷ ls) zero x l g e d f = ground arith
  find_lane-set k (y ∷ ls) (suc i) x l g e d f = elim (String-discrete y.key k) [
    | yes q ↦ ground (arith, key_at-absent y.key ls i d.0)
    | no q ↦ ground (arith, find_lane-set k ls i x l g e d.1)
  ]
