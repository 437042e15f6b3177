-- ===== src/Tests/Arrays.antt =====
-- list.c on small arrays.
use hayward.Common.{
  Bool, ℕ, ◌≡◌, refl, List, [], ◌∷◌, some, ℤ, pos, negsuc, arith, Bool-cases, inl, inr, ltb,
  if◌then◌else◌,
}
use hayward.ListT.{ListT, create_list, list_add, list_insert}
use hayward.ListT.Seq.{index_of, insert_at}
use hayward.ListT.Refine.{
  Represents, create_list-Represents, list_add-Represents, list_insert-Represents,
}
use hayward.ListT.Sort.{list_stable_sort}
use hayward.ListT.Sort.Order.{IsPreorder, IsStableSort}
use hayward.ListT.Sort.Slots.{list_stable_sort-IsStableSort}

abbrev two_items : ListT ℕ
two_items = list_add (list_add create_list 7) 5

two_items-Represents : Represents two_items (7 ∷ 5 ∷ [])
two_items-Represents =
    list_add-Represents (list_add create_list 7) (7 ∷ []) 5
      (list_add-Represents create_list [] 7 create_list-Represents)

list_insert-Represents_example : Represents (list_insert two_items 1 9) (insert_at (7 ∷ 5 ∷ []) 1 9)
list_insert-Represents_example =
    list_insert-Represents two_items (7 ∷ 5 ∷ []) 1 9 two_items-Represents (omega arith)

inserted : insert_at {A = ℕ} (7 ∷ 5 ∷ []) 1 9 ≡ 7 ∷ 9 ∷ 5 ∷ []
unfolding insert_at
inserted = refl

found : index_of 5 (7 ∷ 5 ∷ []) ≡ some 1
unfolding index_of
found = refl

-- Numbers by size.
abbrev by_size : ℕ → ℕ → ℤ
by_size a b = if ltb b a then pos 1 else if ltb a b then negsuc 0 else pos 0

by_size-IsPreorder : IsPreorder by_size
by_size-IsPreorder = record {
  total = λ a b. elim (Bool-cases (ltb a b)) [
    | inl h ↦ inl (ground arith)
    | inr h ↦ inr (ground arith)
  ];
  trans = λ a b c h k. ground arith;
}

list_stable_sort-IsStableSort_example :
    (ys : List ℕ) × Represents (list_stable_sort by_size two_items) ys
    × IsStableSort by_size (7 ∷ 5 ∷ []) ys
list_stable_sort-IsStableSort_example =
    list_stable_sort-IsStableSort by_size two_items (7 ∷ 5 ∷ []) by_size-IsPreorder
      two_items-Represents

-- Names that are numbers, the small ones of which are taken to begin with a digit.
abbrev is_small : ℕ → Bool
is_small n = ltb n 10
