-- ===== src/ListT/Sort/InPlace.antt =====
-- The in-place steps of list.c on a buffer in parts: rotation and the merge loop.
use mathlib.Core.List.{append_assoc}
use hayward.Common.{
  ℕ, zero, suc, ◌+◌, ◌-◌, ◌≤◌, ◌≡◌, refl, sym, ap, ◌∙◌, inl, inr, List, [], ◌∷◌, ◌++◌, some, true,
  false, ◌&&◌, ℤ, is_nonpos, arith, length, set, get_elem?, leb, length-append, get_elem?-append,
  set-append, Bool-cases,
}
use hayward.ListT.Sort.{copy_item, shift_right, list_rotate, compare_at, merge_loop}
use hayward.ListT.Sort.Merge.{merge}

module _ {ℓ} {B : Type ℓ} where
  -- A list that is not empty, from its end.
  pub last_view :
      (xs : List B) (k : ℕ)
      → length xs ≡ suc k
      → (init : List B) × (z : B) × (xs ≡ init ++ z ∷ []) × (length init ≡ k)
  last_view [] k h = absurd (omega arith)
  last_view (x ∷ []) k h = ([], x, refl, omega arith)
  last_view (x ∷ y ∷ ys) zero h = absurd (omega arith)
  last_view (x ∷ y ∷ ys) (suc k) h =
      let (init, z, e, n) = last_view (y ∷ ys) k (omega arith) in
      (x ∷ init, z, ap (◌∷◌ x) e, ap suc n)

  -- Buffers in three parts, read and written at the head of the third.
  pub get_third :
      (us ms vs : List B) (y : B) (i : ℕ)
      → i ≡ length us + length ms
      → get_elem? (us ++ (ms ++ (y ∷ vs))) i ≡ some y
  get_third us ms vs y i h =
      rw (← append_assoc us ms (y ∷ vs))
        (get_elem?-append (us ++ ms) vs y i (omega (arith, length-append us ms)))

  copy_back :
      (us ms vs : List B) (z y : B) (dst src : ℕ)
      → src ≡ length us + length ms
      → dst ≡ suc src
      → copy_item (us ++ (ms ++ (z ∷ y ∷ vs))) dst src ≡ us ++ (ms ++ (z ∷ z ∷ vs))
  unfolding copy_item
  copy_back us ms vs z y dst src hs hd =
      rw (get_third us ms (y ∷ vs) z src hs, copy_item)
        (rw (← append_assoc us ms (z ∷ y ∷ vs), ← append_assoc us ms (z ∷ z ∷ vs))
          (ap (λ l. set l dst z) (sym (append_assoc (us ++ ms) (z ∷ []) (y ∷ vs)))
            ∙ set-append ((us ++ ms) ++ (z ∷ [])) vs y z dst
                (omega (arith, length-append (us ++ ms) (z ∷ []), length-append us ms))
            ∙ append_assoc (us ++ ms) (z ∷ []) (z ∷ vs)))

  -- `k` rounds of the shift, then the write of `tmp`: the item is moved over those between.
  shift_then_set :
      (k : ℕ) (us ms vs : List B) (y tmp : B) (from to : ℕ)
      → from ≡ length us
      → length ms ≡ k
      → to ≡ from + k
      → set (shift_right (us ++ (ms ++ (y ∷ vs))) to k) from tmp ≡ us ++ (tmp ∷ (ms ++ vs))
  unfolding shift_right
  shift_then_set zero us [] vs y tmp from to hf hk ht = set-append us vs y tmp from hf
  shift_then_set zero us (m ∷ ms) vs y tmp from to hf hk ht = absurd (omega arith)
  shift_then_set (suc k) us ms vs y tmp from to hf hk ht =
      let (init, z, e, n) = last_view ms k hk in
      simp (e, append_assoc)
        (rw (copy_back us init vs z y to (to - 1) (omega arith) (omega arith))
          (shift_then_set k us init (z ∷ vs) z tmp from (to - 1) hf n (omega arith)))

  -- The rotation moves the item at `to` in front of those from `from` on.
  pub list_rotate_lem :
      (us ms vs : List B) (y : B) (from to : ℕ)
      → from ≡ length us
      → to ≡ from + length ms
      → list_rotate (us ++ (ms ++ (y ∷ vs))) from to ≡ us ++ (y ∷ (ms ++ vs))
  unfolding list_rotate
  list_rotate_lem us ms vs y from to hf ht =
      rw (get_third us ms vs y to (omega arith), list_rotate)
        (shift_then_set (to - from) us ms vs y y from to hf (omega arith) (omega arith))

module _ {ℓ} {B : Type ℓ} (compare : B → B → ℤ) where
  -- The comparison of the heads of the second and the third part.
  pub compare_at_heads :
      (us xs vs : List B) (x y : B) (i j : ℕ)
      → i ≡ length us
      → j ≡ i + length (x ∷ xs)
      → compare_at compare (us ++ ((x ∷ xs) ++ (y ∷ vs))) i j ≡ compare x y
  unfolding compare_at
  compare_at_heads us xs vs x y i j hi hj =
      rw (get_elem?-append us (xs ++ (y ∷ vs)) x i hi, compare_at)
        (rw (get_third us (x ∷ xs) vs y j (omega arith), compare_at))

  -- The merge loop: the two runs `xs` and `ys` that follow `us` become their merge.
  pub merge_loop_lem :
      (fuel : ℕ) (us xs ys vs : List B) (left last mid right : ℕ)
      → left ≡ length us
      → right ≡ left + length xs
      → right ≡ suc mid
      → suc last ≡ right + length ys
      → length xs + length ys ≤ fuel
      → merge_loop compare fuel (us ++ (xs ++ (ys ++ vs))) left last mid right
        ≡ us ++ (merge compare xs ys ++ vs)
  unfolding merge_loop merge
  merge_loop_lem zero us [] [] vs left last mid right hl hr hm ht hf = refl
  merge_loop_lem zero us (x ∷ xs) ys vs left last mid right hl hr hm ht hf = absurd (omega arith)
  merge_loop_lem zero us [] (y ∷ ys) vs left last mid right hl hr hm ht hf = absurd (omega arith)
  merge_loop_lem (suc fuel) us [] ys vs left last mid right hl hr hm ht hf =
      let stop : (leb left mid && leb right last) ≡ false = ground arith in rw (stop, merge_loop)
  merge_loop_lem (suc fuel) us (x ∷ xs) [] vs left last mid right hl hr hm ht hf =
      let stop : (leb left mid && leb right last) ≡ false = ground arith in rw (stop, merge_loop)
  merge_loop_lem (suc fuel) us (x ∷ xs) (y ∷ ys) vs left last mid right hl hr hm ht hf =
      let go : (leb left mid && leb right last) ≡ true = ground arith in
      let seen = compare_at_heads us xs (ys ++ vs) x y left right hl (omega arith) in
      elim (Bool-cases (is_nonpos (compare x y))) [
        | inl e ↦
            rw (go, merge_loop, seen, e, merge)
              (ap (λ l. merge_loop compare fuel l (suc left) last mid right)
                  (sym (append_assoc us (x ∷ []) (xs ++ ((y ∷ ys) ++ vs))))
                ∙ merge_loop_lem fuel (us ++ (x ∷ [])) xs (y ∷ ys) vs (suc left) last mid right
                    (omega (arith, length-append us (x ∷ []))) (omega arith) hm ht (omega arith)
                ∙ append_assoc us (x ∷ []) (merge compare xs (y ∷ ys) ++ vs))
        | inr e ↦
            rw (go, merge_loop, seen, e, merge)
              (ap (λ l. merge_loop compare fuel l (suc left) last (suc mid) (suc right))
                  (list_rotate_lem us (x ∷ xs) (ys ++ vs) y left right hl (omega arith)
                    ∙ sym (append_assoc us (y ∷ []) ((x ∷ xs) ++ (ys ++ vs))))
                ∙ merge_loop_lem fuel (us ++ (y ∷ [])) (x ∷ xs) ys vs (suc left) last (suc mid)
                    (suc right) (omega (arith, length-append us (y ∷ []))) (omega arith)
                    (omega arith) (omega arith) (omega arith)
                ∙ append_assoc us (y ∷ []) (merge compare (x ∷ xs) ys ++ vs))
      ]
