-- ===== src/Router/Rotation.antt =====
-- `order_round_robin` of proxy/src/router.rs goes once round the providers.
use mathlib.Core.List.Perm
use mathlib.Core.List.{Perm, perm_append_comm}
use native.Mathlib.Nat.{
  mod-add-mod, mod-eq_of_lt, mod-lt, mod_self, zero-add, add-zero, suc-add, add-suc,
}
use flock.Base.{
  ℕ, zero, suc, ◌+◌, ◌-◌, ◌%◌, ◌≤◌, ◌<◌, ◌^◌, ◌≡◌, refl, sym, ap, ◌∙◌, subst, List, [], ◌∷◌, ◌++◌,
  length, get_or, usize, arith,
}
use flock.Router.{ProviderRuntime}
use flock.Router.Order.{rotate_from, order_round_robin}

module _ {A : Type 0} (d : A) where
  -- `left` entries from index `j`
  segment : List A → ℕ → ℕ → List A
  segment xs j zero = []
  segment xs j (suc left) = get_or xs j d ∷ segment xs (suc j) left

  segment-tail :
      (x : A) (xs : List A) (j left : ℕ) → segment (x ∷ xs) (suc j) left ≡ segment xs j left
  unfolding segment
  segment-tail x xs j zero = refl
  segment-tail x xs j (suc left) = ap (λ ys. get_or xs j d ∷ ys) (segment-tail x xs (suc j) left)

  segment_whole : (xs : List A) → segment xs 0 (length xs) ≡ xs
  unfolding segment
  segment_whole [] = refl
  segment_whole (x ∷ xs) = ap (λ ys. x ∷ ys) (segment-tail x xs 0 (length xs) ∙ segment_whole xs)

  segment-split :
      (xs : List A) (j a b : ℕ) → segment xs j (a + b) ≡ segment xs j a ++ segment xs (j + a) b
  unfolding segment
  segment-split xs j zero b = rw (zero-add b, add-zero j) refl
  segment-split xs j (suc a) b =
      rw (suc-add a b, add-suc j a, ← suc-add j a)
        (ap (λ ys. get_or xs j d ∷ ys) (segment-split xs (suc j) a b))

next_index : (start i n j : ℕ) → (start + i) % n ≡ j → suc j < n → (start + suc i) % n ≡ suc j
next_index start i n j h lt =
    ap (λ k. k % n) (one_more start i)
    ∙ sym (mod-add-mod (start + i) n 1)
    ∙ ap (λ k. (k + 1) % n) h
    ∙ ap (λ k. k % n) (plus_one j)
    ∙ mod-eq_of_lt lt
  where
    one_more : (a b : ℕ) → a + suc b ≡ (a + b) + 1
    one_more a b = omega arith

    plus_one : (a : ℕ) → a + 1 ≡ suc a
    plus_one a = omega arith

module _ (d : ProviderRuntime) (xs : List ProviderRuntime) (start : ℕ) where
  rotate_from-split :
      (i a b : ℕ)
      → rotate_from d xs start i (a + b)
        ≡ rotate_from d xs start i a ++ rotate_from d xs start (i + a) b
  unfolding rotate_from
  rotate_from-split i zero b = rw (zero-add b, add-zero i) refl
  rotate_from-split i (suc a) b =
      rw (suc-add a b, add-suc i a, ← suc-add i a)
        (ap (λ ys. get_or xs (usize (start + i) % length xs) d ∷ ys)
          (rotate_from-split (suc i) a b))

  here :
      (i j : ℕ)
      → start + i < 2 ^ 64
      → (start + i) % length xs ≡ j
      → get_or xs (usize (start + i) % length xs) d ≡ get_or xs j d
  here i j lt h = ap (λ k. get_or xs k d) (ap (λ k. k % length xs) (mod-eq_of_lt lt) ∙ h)

  -- while the index does not wrap
  rotate_from-segment :
      (left i j : ℕ)
      → (start + i) % length xs ≡ j
      → j + left ≤ length xs
      → start + i + left ≤ 2 ^ 64
      → rotate_from d xs start i left ≡ segment d xs j left
  unfolding rotate_from segment
  rotate_from-segment zero i j h le fits = refl
  rotate_from-segment (suc zero) i j h le fits = ap (λ y. y ∷ []) (here i j (omega arith) h)
  rotate_from-segment (suc (suc left)) i j h le fits =
      ap (λ y. y ∷ rotate_from d xs start (suc i) (suc left)) (here i j (omega arith) h)
      ∙ ap (λ ys. get_or xs j d ∷ ys)
          (rotate_from-segment (suc left) (suc i) (suc j)
            (next_index start i (length xs) j h (omega arith)) (omega arith) (omega arith))

  back_to_zero : 0 < length xs → (start + (0 + (length xs - start % length xs))) % length xs ≡ 0
  back_to_zero pos =
      sym (mod-add-mod start (length xs) (0 + (length xs - start % length xs)))
      ∙ ap (λ k. k % length xs) (filled (start % length xs) (length xs) (mod-lt start pos))
      ∙ mod_self (length xs)
    where
      filled : (k n : ℕ) → k < n → k + (0 + (n - k)) ≡ n
      filled k n h = omega arith

  wrapped :
      start + length xs ≤ 2 ^ 64
      → 0 < length xs
      → rotate_from d xs start 0 (length xs)
        ≡ segment d xs (start % length xs) (length xs - start % length xs)
          ++ segment d xs 0 (start % length xs)
  wrapped fits pos =
      ap (rotate_from d xs start 0) (split_length (start % length xs) (length xs) lt)
      ∙ rotate_from-split 0 (length xs - start % length xs) (start % length xs)
      ∙ ap
          (λ ys.
            ys ++ rotate_from d xs start (0 + (length xs - start % length xs)) (start % length xs))
          (rotate_from-segment (length xs - start % length xs) 0 (start % length xs)
            (ap (λ k. k % length xs) (add-zero start)) (omega arith) (omega arith))
      ∙ ap (λ ys. segment d xs (start % length xs) (length xs - start % length xs) ++ ys)
          (rotate_from-segment (start % length xs) (0 + (length xs - start % length xs)) 0
            (back_to_zero pos) (omega arith) (omega arith))
    where
      lt : start % length xs < length xs
      lt = mod-lt start pos

      split_length : (k n : ℕ) → k < n → n ≡ (n - k) + k
      split_length k n h = omega arith

  rotated-Perm :
      start + length xs ≤ 2 ^ 64 → 0 < length xs → Perm xs (rotate_from d xs start 0 (length xs))
  rotated-Perm fits pos =
      subst (λ ys. Perm ys (rotate_from d xs start 0 (length xs))) whole
        (subst (Perm (segment d xs 0 k ++ segment d xs k (length xs - k))) (sym (wrapped fits pos))
          (perm_append_comm (segment d xs 0 k) (segment d xs k (length xs - k))))
    where
      k : ℕ
      k = start % length xs

      joined : (k n : ℕ) → k < n → k + (n - k) ≡ n
      joined k n h = omega arith

      whole : segment d xs 0 k ++ segment d xs k (length xs - k) ≡ xs
      whole =
          sym (
            segment-split d xs 0 k (length xs - k)
            ∙ ap (λ j. segment d xs 0 k ++ segment d xs j (length xs - k)) (zero-add k))
          ∙ ap (segment d xs 0) (joined k (length xs) (mod-lt start pos))
          ∙ segment_whole d xs

-- While the counter stays clear of the end of its range, `order_round_robin` is a permutation.
pub order_round_robin-Perm :
    (start : ℕ) (rts : List ProviderRuntime)
    → start + length rts ≤ 2 ^ 64
    → Perm rts (order_round_robin start rts)
unfolding order_round_robin
order_round_robin-Perm start [] fits = Perm.nil
order_round_robin-Perm start (rt ∷ rts) fits = rotated-Perm rt (rt ∷ rts) start fits (omega arith)
