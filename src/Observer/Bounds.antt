-- ===== src/Observer/Bounds.antt =====
-- What an observation of proxy/src/observation.rs keeps: finishes in the order of their indexes, and
-- at most 128 of them and of the tool calls.
use flock.Base.{
  ℕ, suc, ◌≤◌, ◌≡◌, refl, inl, inr, Bool, true, false, List, [], ◌∷◌, arith, ltb, ◌==◌, length,
  Bool-cases,
}
use flock.Observer.State.{
  SeenFinish, ObservationState, contains_key, update_entry, with_finish, contains_pair,
  remember_tool_pair, max_indexed,
}

-- the indexes ascend, from `lo` on
abbrev pub KeysFrom : ℕ → List (ℕ × SeenFinish) → Type 0
KeysFrom lo [] = Unit
KeysFrom lo ((j, f) ∷ rest) = (lo ≤ j) × KeysFrom (suc j) rest

abbrev pub NoRepeat : List (ℕ × ℕ) → Type 0
NoRepeat [] = Unit
NoRepeat (p ∷ rest) = (contains_pair p rest ≡ false) × NoRepeat rest

pub record Bounded (s : ObservationState) : Type 0 where
  pub ordered : KeysFrom 0 s.finishes
  pub few_finishes : length s.finishes ≤ 128
  pub distinct : NoRepeat s.tool_pairs
  pub few_pairs : length s.tool_pairs ≤ 128

update_entry-KeysFrom :
    (lo i : ℕ) (f : SeenFinish → SeenFinish) (xs : List (ℕ × SeenFinish))
    → lo ≤ i
    → KeysFrom lo xs
    → KeysFrom lo (update_entry i f xs)
unfolding update_entry
update_entry-KeysFrom lo i f [] h k = (h, tt)
update_entry-KeysFrom lo i f ((j, seen) ∷ rest) h k = elim (Bool-cases (i == j)) [
  | inl t ↦ rw t k
  | inr n ↦ elim (Bool-cases (ltb i j)) [
    | inl y ↦ rw (n, y) (h, (ground (arith, y), k.1))
    | inr z ↦ rw (n, z) (k.0, update_entry-KeysFrom (suc j) i f rest (ground (arith, n, z)) k.1)
  ]
]

contains_key-from :
    (lo i : ℕ) (xs : List (ℕ × SeenFinish)) → KeysFrom lo xs → contains_key i xs ≡ true → lo ≤ i
unfolding contains_key
contains_key-from lo i [] k c = absurd (ground (arith, c))
contains_key-from lo i ((j, f) ∷ rest) k c = elim (Bool-cases (i == j)) [
  | inl t ↦ ground (arith, t, k.0)
  | inr n ↦
      let above = contains_key-from (suc j) i rest k.1 (rw n at c) in omega (arith, above, k.0)
]

length-update_entry_known :
    (lo i : ℕ) (f : SeenFinish → SeenFinish) (xs : List (ℕ × SeenFinish))
    → KeysFrom lo xs
    → contains_key i xs ≡ true
    → length (update_entry i f xs) ≡ length xs
unfolding update_entry contains_key
length-update_entry_known lo i f [] k c = absurd (ground (arith, c))
length-update_entry_known lo i f ((j, seen) ∷ rest) k c = elim (Bool-cases (i == j)) [
  | inl t ↦ rw t refl
  | inr n ↦
      let later = rw n at c in
      let above = contains_key-from (suc j) i rest k.1 later in
      ground (arith, n, above, length-update_entry_known (suc j) i f rest k.1 later)
]

length-update_entry-le :
    (i : ℕ) (f : SeenFinish → SeenFinish) (xs : List (ℕ × SeenFinish))
    → length (update_entry i f xs) ≤ suc (length xs)
unfolding update_entry
length-update_entry-le i f [] = omega arith
length-update_entry-le i f ((j, seen) ∷ rest) = ground (arith, length-update_entry-le i f rest)

pub with_finish-Bounded :
    (s : ObservationState) (i : ℕ) (f : SeenFinish → SeenFinish)
    → Bounded s
    → Bounded (with_finish s i f)
unfolding with_finish
with_finish-Bounded s i f b = elim (Bool-cases (contains_key i s.finishes)) [
  | inl t ↦ rw t (record {
    ordered = update_entry-KeysFrom 0 i f s.finishes (omega arith) b.ordered;
    few_finishes = rw (length-update_entry_known 0 i f s.finishes b.ordered t) b.few_finishes;
    distinct = b.distinct;
    few_pairs = b.few_pairs;
  })
  | inr n ↦ elim (Bool-cases (ltb (length s.finishes) max_indexed)) [
    | inl y ↦
        rw (n, y)
          (record {
            ordered = update_entry-KeysFrom 0 i f s.finishes (omega arith) b.ordered;
            few_finishes = ground (arith, y, length-update_entry-le i f s.finishes);
            distinct = b.distinct;
            few_pairs = b.few_pairs;
          })
    | inr z ↦
        rw (n, z)
          (record {
            ordered = b.ordered;
            few_finishes = b.few_finishes;
            distinct = b.distinct;
            few_pairs = b.few_pairs;
          })
  ]
]

pub invalid_tools-Bounded :
    (s : ObservationState) (t : Bool) → Bounded s → Bounded (record s { tools_invalid = t })
invalid_tools-Bounded s t b = record {
  ordered = b.ordered;
  few_finishes = b.few_finishes;
  distinct = b.distinct;
  few_pairs = b.few_pairs;
}

pub remember_tool_pair-Bounded :
    (s : ObservationState) (p : ℕ × ℕ) → Bounded s → Bounded (remember_tool_pair s p)
unfolding remember_tool_pair
remember_tool_pair-Bounded s p b = elim (Bool-cases (contains_pair p s.tool_pairs)) [
  | inl t ↦ rw t b
  | inr n ↦ elim (Bool-cases (ltb (length s.tool_pairs) max_indexed)) [
    | inl y ↦
        rw (n, y)
          (record {
            ordered = b.ordered;
            few_finishes = b.few_finishes;
            distinct = (n, b.distinct);
            few_pairs = ground (arith, y);
          })
    | inr z ↦ rw (n, z) (invalid_tools-Bounded s true b)
  ]
]

-- the bounds read the finishes and the pairs only
pub Bounded-same :
    (s t : ObservationState)
    → t.finishes ≡ s.finishes
    → t.tool_pairs ≡ s.tool_pairs
    → Bounded s
    → Bounded t
Bounded-same s t e f b = record {
  ordered = rw e b.ordered;
  few_finishes = rw e b.few_finishes;
  distinct = rw f b.distinct;
  few_pairs = rw f b.few_pairs;
}
