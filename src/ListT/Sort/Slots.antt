-- ===== src/ListT/Sort/Slots.antt =====
-- The stable sort seen from outside: what list_stable_sort does to the contents of a list_t.
use mathlib.Core.List.{filter_map}
use mathlib.Core.List.Perm
use hayward.Common.{
  ◌-◌, ◌≤◌, ◌≡◌, refl, sym, ap, ◌∙◌, inl, inr, ◌⊎◌, List, [], ◌∷◌, ◌++◌, map, Option, none, some, ℤ,
  arith, length, ltb, Bool-cases, length-map,
}
use hayward.ListT.{ListT}
use hayward.ListT.Refine.{Represents}
use hayward.ListT.Sort.{compare_slots, list_inplace_sort, list_stable_sort}
use hayward.ListT.Sort.Order.{All, filter_by, Le, IsPreorder, IsSorted, same_key, IsStableSort}
use hayward.ListT.Sort.Correct.{sort_run}

module _ {ℓ} {A : Type ℓ} (compare : A → A → ℤ) where
  slots-IsPreorder : IsPreorder compare → IsPreorder (compare_slots compare)
  unfolding compare_slots
  slots-IsPreorder o = record { total = total_slots; trans = trans_slots }
    where
      total_slots :
          (a b : Option A) → Le (compare_slots compare) a b ⊎ Le (compare_slots compare) b a
      total_slots (some a) (some b) = o.total a b
      total_slots (some a) none = inl refl
      total_slots none (some b) = inr refl
      total_slots none none = inl refl

      trans_slots :
          (a b c : Option A)
          → Le (compare_slots compare) a b
          → Le (compare_slots compare) b c
          → Le (compare_slots compare) a c
      trans_slots (some a) (some b) (some c) h k = o.trans a b c h k
      trans_slots (some a) (some b) none h k = refl
      trans_slots (some a) none (some c) h k = cc
      trans_slots (some a) none none h k = refl
      trans_slots none (some b) c h k = cc
      trans_slots none none c h k = k

  -- No uninitialised slot among `zs`, if none is of the key of one.
  initialised :
      (zs : List (Option A))
      → filter_by (same_key (compare_slots compare) none) zs ≡ []
      → zs ≡ map some (filter_map (λ o. o) zs)
  unfolding compare_slots filter_map
  initialised [] h = refl
  initialised (none ∷ zs) h = cc
  initialised (some z ∷ zs) h = ap (◌∷◌ (some z)) (initialised zs h)

  no_none : (xs : List A) → filter_by (same_key (compare_slots compare) none) (map some xs) ≡ []
  unfolding compare_slots
  no_none [] = refl
  no_none (x ∷ xs) = no_none xs

  filter_map-map-some : (xs : List A) → filter_map (λ o. o) (map some xs) ≡ xs
  unfolding filter_map
  filter_map-map-some [] = refl
  filter_map-map-some (x ∷ xs) = ap (◌∷◌ x) (filter_map-map-some xs)

  filter_by-map-some :
      (a : A) (xs : List A)
      → filter_map (λ o. o) (filter_by (same_key (compare_slots compare) (some a)) (map some xs))
        ≡ filter_by (same_key compare a) xs
  unfolding compare_slots filter_map
  filter_by-map-some a [] = refl
  filter_by-map-some a (x ∷ xs) = elim (Bool-cases (same_key compare a x)) [
    | inl t ↦ rw (t, filter_by) (ap (◌∷◌ x) (filter_by-map-some a xs))
    | inr t ↦ rw (t, filter_by) (filter_by-map-some a xs)
  ]

  All-map-some :
      (x : A) (xs : List A)
      → All (Le (compare_slots compare) (some x)) (map some xs)
      → All (Le compare x) xs
  unfolding compare_slots
  All-map-some x [] h = tt
  All-map-some x (y ∷ xs) h = (h.0, All-map-some x xs h.1)

  IsSorted-map-some :
      (xs : List A) → IsSorted (compare_slots compare) (map some xs) → IsSorted compare xs
  IsSorted-map-some [] h = tt
  IsSorted-map-some (x ∷ xs) h = (All-map-some x xs h.0, IsSorted-map-some xs h.1)

  stable_contents :
      (xs ys : List A)
      → IsStableSort (compare_slots compare) (map some xs) (map some ys)
      → IsStableSort compare xs ys
  stable_contents xs ys h = record {
    sorted = IsSorted-map-some ys h.sorted;
    perm =
        rw (← filter_map-map-some xs, ← filter_map-map-some ys) (Perm.filter_map (λ o. o) h.perm);
    stable = λ a.
        sym (filter_by-map-some a ys)
        ∙ ap (filter_map (λ o. o)) (h.stable (some a))
        ∙ filter_by-map-some a xs;
  }

  short_sort : (xs : List A) → length xs ≤ 1 → IsStableSort compare xs xs
  short_sort [] h = record { sorted = tt; perm = Perm.refl []; stable = λ a. refl }
  short_sort (x ∷ []) h = record {
    sorted = (tt, tt);
    perm = Perm.refl (x ∷ []);
    stable = λ a. refl;
  }
  short_sort (x ∷ y ∷ xs) h = absurd (omega arith)

  -- The array holds the items of before in ascending order, those that compare equal in the order
  -- that they had, if the comparison function is a total preorder.
  pub list_stable_sort-IsStableSort :
      (l : ListT A) (xs : List A)
      → IsPreorder compare
      → Represents l xs
      → (ys : List A) × Represents (list_stable_sort compare l) ys × IsStableSort compare xs ys
  unfolding list_stable_sort
  list_stable_sort-IsStableSort l xs o r = elim (Bool-cases (ltb 1 l.length)) [
    | inr few ↦ (xs, rw (few, list_stable_sort) r, short_sort xs (ground (arith, r.counted)))
    | inl many ↦
        let run =
          sort_run (compare_slots compare) (slots-IsPreorder o) l.length [] (map some xs) r.rest 0
            (l.length - 1) refl (ground (arith, r.counted, length-map some xs))
            (ground (arith, r.counted, length-map some xs))
            (ground (arith, r.counted, length-map some xs)) in
        let ys = filter_map (λ o. o) run.run in
        let clean = initialised run.run (run.is_sort.stable none ∙ no_none xs) in
        let same : length ys ≡ length xs =
          omega (arith, ap length clean, length-map some ys, run.same_length, length-map some xs) in
        (
          ys,
          rw (many, list_stable_sort)
              (record {
                rest = r.rest;
                filled =
                    ap
                      (λ items.
                        list_inplace_sort (compare_slots compare) l.length items 0 (l.length - 1))
                      r.filled
                    ∙ run.at_place
                    ∙ ap (λ zs. zs ++ r.rest) clean;
                counted = omega (arith, r.counted, same);
                sized = omega (arith, r.sized, same);
                roomy = r.roomy;
              }),
          stable_contents xs ys (rw clean at run.is_sort),
        )
  ]
