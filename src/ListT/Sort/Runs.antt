-- ===== src/ListT/Sort/Runs.antt =====
-- Sorted runs inside a buffer: what list_inplace_merge and the exchange of two neighbours make
-- of stably sorted parts.
use mathlib.Core.List.{append_assoc}
use mathlib.Core.List.Perm
use hayward.Common.{
  ℕ, suc, ◌+◌, ◌-◌, ◌<◌, ◌≡◌, refl, sym, ap, ◌∙◌, inl, inr, List, [], ◌∷◌, ◌++◌, ℤ, is_nonpos,
  arith, length, if◌then◌else◌, length-append, Bool-cases, get_elem?-append, set-append, set,
}
use hayward.ListT.{swap_items}
use hayward.ListT.Sort.{list_inplace_merge, compare_at}
use hayward.ListT.Sort.Order.{All, Le, IsPreorder, IsSorted, IsStableSort}
use hayward.ListT.Sort.Merge.{
  merge, merge-perm, merge-IsSorted, merge-stable, All-append, All-map, filter_by-append,
}
use hayward.ListT.Sort.InPlace.{last_view, get_third, compare_at_heads, merge_loop_lem}

last_of {ℓ κ} : {A : Type ℓ} (P : A → Type κ) (xs : List A) (z : A) → All P (xs ++ (z ∷ [])) → P z
last_of P [] z h = h.0
last_of P (x ∷ xs) z h = last_of P xs z h.1

swap_items_lem {ℓ} :
    {A : Type ℓ} (us vs : List A) (x y : A) (first last : ℕ)
    → first ≡ length us
    → last ≡ suc first
    → swap_items (us ++ (x ∷ y ∷ vs)) first last ≡ us ++ (y ∷ x ∷ vs)
unfolding swap_items
swap_items_lem us vs x y first last hf hl =
    rw (get_elem?-append us (y ∷ vs) x first hf, swap_items)
      (rw (get_third us (x ∷ []) vs y last (omega arith), swap_items)
        (ap (λ l. set l last x)
            (set-append us (y ∷ vs) x y first hf ∙ sym (append_assoc us (y ∷ []) (y ∷ vs)))
          ∙ set-append (us ++ (y ∷ [])) vs y x last (omega (arith, length-append us (y ∷ [])))
          ∙ append_assoc us (y ∷ []) (x ∷ vs)))

module _ {ℓ} {A : Type ℓ} (compare : A → A → ℤ) where
  pub length-merge : (ls rs : List A) → length rs + length ls ≡ length (merge compare ls rs)
  unfolding merge
  length-merge [] rs = omega arith
  length-merge (l ∷ ls) [] = omega arith
  length-merge (l ∷ ls) (r ∷ rs) =
      let taken_left = length-merge ls (r ∷ rs) in
      let taken_right = length-merge (l ∷ ls) rs in ground (arith, taken_left, taken_right)

  -- Two ascending runs whose ends fit make one.
  IsSorted-join :
      IsPreorder compare
      → (xs : List A) (z y : A) (ys : List A) → IsSorted compare (xs ++ (z ∷ []))
      → IsSorted compare (y ∷ ys)
      → Le compare z y
      → IsSorted compare ((xs ++ (z ∷ [])) ++ (y ∷ ys))
  IsSorted-join o [] z y ys h k l = ((l, All-map _ _ (λ w m. o.trans z y w l m) ys k.0), k)
  IsSorted-join o (x ∷ xs) z y ys h k l =
      let x_z : Le compare x z = last_of (Le compare x) xs z h.0 in
      let x_y : Le compare x y = o.trans x z y x_z l in
      (
        All-append _ (xs ++ (z ∷ [])) (y ∷ ys) h.0
            (x_y, All-map _ _ (λ w m. o.trans x y w x_y m) ys k.0),
        IsSorted-join o xs z y ys h.1 k l,
      )

  module _ (o : IsPreorder compare) where
    stable_merge :
        (xs ls ys rs : List A)
        → IsStableSort compare xs ls
        → IsStableSort compare ys rs
        → IsStableSort compare (xs ++ ys) (merge compare ls rs)
    stable_merge xs ls ys rs h k = record {
      sorted = merge-IsSorted compare o ls rs h.sorted k.sorted;
      perm = Perm.trans (Perm.append h.perm k.perm) (merge-perm compare ls rs);
      stable = λ a.
          rw (merge-stable compare o a ls rs h.sorted, filter_by-append, h.stable a, k.stable a);
    }

    stable_join :
        (xs ls ys rs : List A)
        → IsStableSort compare xs ls
        → IsStableSort compare ys rs
        → IsSorted compare (ls ++ rs)
        → IsStableSort compare (xs ++ ys) (ls ++ rs)
    stable_join xs ls ys rs h k s = record {
      sorted = s;
      perm = Perm.append h.perm k.perm;
      stable = λ a. rw (filter_by-append, filter_by-append, h.stable a, k.stable a);
    }

    -- What a call of the sort leaves of the run `xs` between `us` and `vs`.
    pub record IsSortedRun (us xs vs result : List A) : Type ℓ where
      pub run : List A
      pub is_sort : IsStableSort compare xs run
      pub same_length : length run ≡ length xs
      pub at_place : result ≡ us ++ (run ++ vs)

    middle_seen :
        (us init ys vs : List A) (z y : A) (mid : ℕ)
        → mid ≡ length us + length init
        → compare_at compare (us ++ ((init ++ (z ∷ [])) ++ ((y ∷ ys) ++ vs))) mid (mid + 1)
          ≡ compare z y
    middle_seen us init ys vs z y mid h =
        rw
          (append_assoc init (z ∷ []) ((y ∷ ys) ++ vs), ← append_assoc us init (z ∷ y ∷ (ys ++ vs)))
          (compare_at_heads compare (us ++ init) [] (ys ++ vs) z y mid (mid + 1)
            (omega (arith, length-append us init)) (omega arith))

    merge_ends :
        (us xs init ys rs vs : List A) (z y : A) (first last mid : ℕ)
        → IsStableSort compare xs (init ++ (z ∷ []))
        → IsStableSort compare ys (y ∷ rs)
        → length (init ++ (z ∷ [])) ≡ length xs
        → length (y ∷ rs) ≡ length ys
        → first ≡ length us
        → suc mid ≡ first + length xs
        → suc last ≡ suc mid + length ys
        → IsSortedRun us (xs ++ ys) vs (
            list_inplace_merge compare
              (us ++ ((init ++ (z ∷ [])) ++ ((y ∷ rs) ++ vs)))
              first
              last
              mid)
    unfolding list_inplace_merge
    merge_ends us xs init ys rs vs z y first last mid hx hy nx ny hf hm hl =
        let ls = init ++ (z ∷ []) in
        let seen =
          middle_seen us init rs vs z y mid (omega (arith, length-append init (z ∷ []), nx)) in
        elim (Bool-cases (is_nonpos (compare z y))) [
          | inl e ↦
              rw (seen, e, list_inplace_merge)
                (record {
                  run = ls ++ (y ∷ rs);
                  is_sort =
                      stable_join xs ls ys (y ∷ rs) hx hy
                        (IsSorted-join o init z y rs hx.sorted hy.sorted e);
                  same_length =
                      omega (arith, length-append ls (y ∷ rs), length-append xs ys, nx, ny);
                  at_place = ap (◌++◌ us) (sym (append_assoc ls (y ∷ rs) vs));
                })
          | inr e ↦
              rw (seen, e, list_inplace_merge)
                (record {
                  run = merge compare ls (y ∷ rs);
                  is_sort = stable_merge xs ls ys (y ∷ rs) hx hy;
                  same_length =
                      omega (arith, length-merge ls (y ∷ rs), length-append xs ys, nx, ny);
                  at_place =
                      merge_loop_lem compare (suc last - first) us ls (y ∷ rs) vs first last mid
                        (mid + 1) hf (omega (arith, nx)) (omega arith) (omega (arith, ny))
                        (omega (arith, nx, ny));
                })
        ]

    pub merge_run :
        (us xs ls ys rs vs : List A) (first last mid : ℕ)
        → IsStableSort compare xs ls
        → IsStableSort compare ys rs
        → length ls ≡ length xs
        → length rs ≡ length ys
        → 0 < length xs
        → 0 < length ys
        → first ≡ length us
        → suc mid ≡ first + length xs
        → suc last ≡ suc mid + length ys
        → IsSortedRun us
            (xs ++ ys)
            vs
            (list_inplace_merge compare (us ++ (ls ++ (rs ++ vs))) first last mid)
    merge_run us xs ls ys [] vs first last mid hx hy nx ny px py hf hm hl = absurd (omega arith)
    merge_run us xs ls ys (y ∷ rs) vs first last mid hx hy nx ny px py hf hm hl =
        let (init, z, e, _) = last_view ls (length ls - 1) (omega arith) in
        rw e (
          merge_ends us xs init ys rs vs z y first last mid (rw e at hx) hy (rw e at nx) ny hf hm
            hl)

    pub one_run : (x : A) → IsStableSort compare (x ∷ []) (x ∷ [])
    one_run x = record { sorted = (tt, tt); perm = Perm.refl (x ∷ []); stable = λ a. refl }

    -- Two items, compared and exchanged if they are in the wrong order.
    pub pair_run :
        (us vs : List A) (x y : A) (first last : ℕ)
        → first ≡ length us
        → last ≡ suc first
        → IsSortedRun us (x ∷ y ∷ []) vs (
            if is_nonpos (compare_at compare (us ++ (x ∷ y ∷ vs)) first last)
            then us ++ (x ∷ y ∷ vs)
            else swap_items (us ++ (x ∷ y ∷ vs)) first last)
    unfolding merge
    pair_run us vs x y first last hf hl =
        let seen = compare_at_heads compare us [] vs x y first last hf (omega arith) in
        let made = stable_merge (x ∷ []) (x ∷ []) (y ∷ []) (y ∷ []) (one_run x) (one_run y) in
        elim (Bool-cases (is_nonpos (compare x y))) [
          | inl e ↦
              rw (seen, e)
                (record {
                  run = x ∷ y ∷ [];
                  is_sort = rw (e, merge) at made;
                  same_length = refl;
                  at_place = refl;
                })
          | inr e ↦
              rw (seen, e)
                (record {
                  run = y ∷ x ∷ [];
                  is_sort = rw (e, merge) at made;
                  same_length = refl;
                  at_place = swap_items_lem us vs x y first last hf hl;
                })
        ]
