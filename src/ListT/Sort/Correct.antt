-- ===== src/ListT/Sort/Correct.antt =====
-- list_stable_sort of list.c is a stable sort, whatever the comparison, if that is a total
-- preorder.
use mathlib.Core.List.{append_assoc}
use hayward.Common.{
  ℕ, zero, suc, ◌+◌, ◌-◌, ◌/◌, ◌≤◌, ◌<◌, ◌≡◌, refl, List, [], ◌∷◌, ◌++◌, true, false, ℤ, arith,
  length, leb, ◌==◌, length-append, take, drop, take-append-drop, length-take, length-drop, subst,
}
use hayward.ListT.Sort.{list_inplace_merge, list_inplace_sort}
use hayward.ListT.Sort.Order.{IsPreorder}
use hayward.ListT.Sort.Runs.{IsSortedRun, merge_run, pair_run, one_run}

module _ {ℓ} {A : Type ℓ} (compare : A → A → ℤ) (o : IsPreorder compare) where
  module _ (fuel : ℕ)
      (ih : (us xs vs : List A) (first last : ℕ)
        → first ≡ length us
        → suc last ≡ first + length xs
        → 0 < length xs
        → length xs ≤ fuel
        → IsSortedRun compare o us xs vs
            (list_inplace_sort compare fuel (us ++ (xs ++ vs)) first last)) where
    -- The two halves sorted and merged.
    halves_run :
        (us xs ys vs : List A) (first last mid : ℕ)
        → first ≡ length us
        → suc mid ≡ first + length xs
        → suc last ≡ suc mid + length ys
        → 0 < length xs
        → 0 < length ys
        → length xs ≤ fuel
        → length ys ≤ fuel
        → IsSortedRun compare o us (xs ++ ys) vs (
            list_inplace_merge compare
              (list_inplace_sort compare fuel
                (list_inplace_sort compare fuel (us ++ (xs ++ (ys ++ vs))) first mid)
                (mid + 1)
                last)
              first
              last
              mid)
    halves_run us xs ys vs first last mid hf hm hl px py nx ny =
        let lower = ih us xs (ys ++ vs) first mid hf hm px nx in
        let upper =
          ih (us ++ lower.run) ys vs (mid + 1) last
            (omega (arith, length-append us lower.run, lower.same_length)) (omega arith) py ny in
        rw
          (
            lower.at_place,
            ← append_assoc us lower.run (ys ++ vs),
            upper.at_place,
            append_assoc us lower.run (upper.run ++ vs),
          )
          (merge_run compare o us xs lower.run ys upper.run vs first last mid lower.is_sort
            upper.is_sort lower.same_length upper.same_length px py hf hm hl)

    long_run :
        (us xs vs : List A) (first last : ℕ)
        → first ≡ length us
        → suc last ≡ first + length xs
        → 2 < length xs
        → length xs ≤ suc fuel
        → IsSortedRun compare o us xs vs
            (list_inplace_sort compare (suc fuel) (us ++ (xs ++ vs)) first last)
    unfolding list_inplace_sort
    long_run us xs vs first last hf hl p n =
        let some_way : leb last first ≡ false = ground arith in
        let not_next : (last - first == 1) ≡ false = ground arith in
        let mid = (last + first) / 2 in
        let k = suc mid - first in
        rw (some_way, list_inplace_sort)
          (rw (not_next, list_inplace_sort)
            (subst
              (λ l. IsSortedRun compare o us l vs (
                list_inplace_merge compare
                  (list_inplace_sort compare fuel
                    (list_inplace_sort compare fuel (us ++ (l ++ vs)) first mid) (mid + 1) last)
                  first last mid))
              (take-append-drop k xs)
              (rw append_assoc (
                halves_run us (take k xs) (drop k xs) vs first last mid hf
                  (omega (arith, length-take k xs)) (omega (arith, length-drop k xs))
                  (omega (arith, length-take k xs)) (omega (arith, length-drop k xs))
                  (omega (arith, length-take k xs)) (omega (arith, length-drop k xs))))))

  pub sort_run :
      (fuel : ℕ) (us xs vs : List A) (first last : ℕ)
      → first ≡ length us
      → suc last ≡ first + length xs
      → 0 < length xs
      → length xs ≤ fuel
      → IsSortedRun compare o us xs vs
          (list_inplace_sort compare fuel (us ++ (xs ++ vs)) first last)
  unfolding list_inplace_sort
  sort_run zero us xs vs first last hf hl p n = absurd (omega arith)
  sort_run (suc fuel) us [] vs first last hf hl p n = absurd (omega arith)
  sort_run (suc fuel) us (x ∷ []) vs first last hf hl p n =
      let here : leb last first ≡ true = ground arith in
      rw (here, list_inplace_sort)
        (record {
          run = x ∷ [];
          is_sort = one_run compare o x;
          same_length = refl;
          at_place = refl;
        })
  sort_run (suc fuel) us (x ∷ y ∷ []) vs first last hf hl p n =
      let some_way : leb last first ≡ false = ground arith in
      let next : (last - first == 1) ≡ true = ground arith in
      rw (some_way, list_inplace_sort)
        (rw (next, list_inplace_sort) (pair_run compare o us vs x y first last hf (omega arith)))
  sort_run (suc fuel) us (x ∷ y ∷ z ∷ xs) vs first last hf hl p n =
      long_run fuel (sort_run fuel) us (x ∷ y ∷ z ∷ xs) vs first last hf hl (omega arith) n
