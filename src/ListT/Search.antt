-- ===== src/ListT/Search.antt =====
-- The searches of list.c and what is built on them: list_find, list_cat, list_remove and
-- list_move_to_end on a represented array.
use mathlib.Core.List.{append_assoc, append-nil}
use mathlib.Core.Option
use native.Mathlib.Nat.{add-zero}
use hayward.Common.{
  ℕ, suc, ◌+◌, ◌≡◌, refl, sym, ap, ◌∙◌, inl, inr, ◌⊎◌, List, [], ◌∷◌, ◌++◌, map, Option, none, some,
  true, false, arith, length, ◌==◌, Bool-cases, length-append, get_elem?-append, length-map,
}
use hayward.ListT.{
  ListT, slot, list_add, list_del, list_find, find_loop, list_cat, cat_loop, list_remove,
  list_move_to_end, list_clear,
}
use hayward.ListT.Seq.{index_of, remove, contains}
use hayward.ListT.Positions.{index_of-cases}
use hayward.ListT.Refine.{Represents, list_add-Represents, list_del-Represents}

module _ {ℓ} {A : Type ℓ} where
  slot_at :
      (us rest : List (Option A)) (x : A) (i : ℕ)
      → i ≡ length us
      → slot (us ++ (some x ∷ rest)) i ≡ some x
  unfolding slot
  slot_at us rest x i h = rw (get_elem?-append us rest (some x) i h, slot)

  next_slot : (us vs : List (Option A)) (o : Option A) → us ++ (o ∷ vs) ≡ (us ++ (o ∷ [])) ++ vs
  next_slot us vs o = sym (append_assoc us (o ∷ []) vs)

  cat_loop-Represents :
      (l : ListT A) (xs : List A) (us : List (Option A)) (todo : List A) (rest : List (Option A))
      (i : ℕ)
      → Represents l xs
      → i ≡ length us
      → Represents (cat_loop l (us ++ (map some todo ++ rest)) (length todo) i) (xs ++ todo)
  unfolding cat_loop
  cat_loop-Represents l xs us [] rest i r h = rw append-nil r
  cat_loop-Represents l xs us (t ∷ todo) rest i r h =
      rw (slot_at us (map some todo ++ rest) t i h, cat_loop)
        (rw (next_slot us (map some todo ++ rest) (some t), ← append_assoc xs (t ∷ []) todo)
          (cat_loop-Represents (list_add l t) (xs ++ (t ∷ [])) (us ++ (some t ∷ [])) todo rest
            (suc i) (list_add-Represents l xs t r) (omega (arith, length-append us (some t ∷ [])))))

  -- Concatenation appends the contents of the source.
  pub list_cat-Represents :
      (l source : ListT A) (xs ys : List A)
      → Represents l xs
      → Represents source ys
      → Represents (list_cat l source) (xs ++ ys)
  unfolding list_cat
  list_cat-Represents l source xs ys r s =
      rw (s.filled, s.counted) (cat_loop-Represents l xs [] ys s.rest 0 r refl)

  pub list_clear-Represents :
      (l : ListT A) (xs : List A) → Represents l xs → Represents (list_clear l) []
  unfolding list_clear
  list_clear-Represents l xs r = record {
    rest = l.items;
    filled = refl;
    counted = refl;
    sized = omega (
      arith,
      r.sized,
      ap length r.filled,
      length-append (map some xs) r.rest,
      length-map some xs,
    );
    roomy = r.roomy;
  }

shift_index :
    (i : ℕ) (o : Option ℕ)
    → Option.map (λ j. suc i + j) o ≡ Option.map (λ j. i + j) (Option.map suc o)
shift_index i none = refl
shift_index i (some j) = ap some (omega arith)

find_loop_lem :
    (us : List (Option ℕ)) (todo : List ℕ) (rest : List (Option ℕ)) (item i : ℕ)
    → i ≡ length us
    → find_loop (us ++ (map some todo ++ rest)) item (length todo) i
      ≡ Option.map (λ j. i + j) (index_of item todo)
unfolding find_loop index_of
find_loop_lem us [] rest item i h = refl
find_loop_lem us (t ∷ todo) rest item i h =
    let later =
      find_loop_lem (us ++ (some t ∷ [])) todo rest item (suc i)
        (omega (arith, length-append us (some t ∷ []))) in
    elim (Bool-cases (t == item)) [
      | inl e ↦
          rw (slot_at us (map some todo ++ rest) t i h, find_loop)
            (rw e (ap some (sym (add-zero i))))
      | inr e ↦
          rw (slot_at us (map some todo ++ rest) t i h, find_loop)
            (rw e (
              ap (λ items. find_loop items item (length todo) (suc i)) (next_slot us _ (some t))
              ∙ later
              ∙ shift_index i (index_of item todo)))
    ]

map_id : (o : Option ℕ) → Option.map (λ j. 0 + j) o ≡ o
map_id none = refl
map_id (some j) = ap some (omega arith)

-- The search finds the first occurrence among the contents, and nothing beyond them.
list_find_lem :
    (l : ListT ℕ) (xs : List ℕ) (item : ℕ) → Represents l xs → list_find l item ≡ index_of item xs
unfolding list_find
list_find_lem l xs item r =
    rw (r.filled, r.counted) (find_loop_lem [] xs r.rest item 0 refl ∙ map_id (index_of item xs))

-- Removal drops the first occurrence, and changes nothing where there is none.
pub list_remove-Represents :
    (l : ListT ℕ) (xs : List ℕ) (item : ℕ)
    → Represents l xs
    → Represents (list_remove l item) (remove item xs)
unfolding list_remove
list_remove-Represents l xs item r = elim (index_of-cases item xs) [
  | inl (missing, same, _) ↦ rw (list_find_lem l xs item r, missing, list_remove) (rw same r)
  | inr (i, found, within, erased, _) ↦
      rw (list_find_lem l xs item r, found, list_remove)
        (rw (← erased) (list_del-Represents l xs i r within))
]

-- The item is moved behind the others, which keep their order, if it is in the list; the
-- assertion fails if it is not.
list_move_to_end_lem :
    (l : ListT ℕ) (xs : List ℕ) (item : ℕ)
    → Represents l xs
    → ((contains item xs ≡ true)
        × ((l' : ListT ℕ) × (list_move_to_end l item ≡ some l')
            × Represents l' (remove item xs ++ item ∷ [])))
      ⊎ ((contains item xs ≡ false) × (list_move_to_end l item ≡ none))
unfolding list_move_to_end
list_move_to_end_lem l xs item r = elim (index_of-cases item xs) [
  | inl (missing, _, out) ↦ inr (out, rw (list_find_lem l xs item r, missing, list_move_to_end))
  | inr (i, found, within, erased, held) ↦ inl (
    held,
    (
      list_add (list_del l i) item,
      rw (list_find_lem l xs item r, found, list_move_to_end),
      list_add-Represents (list_del l i) (remove item xs) item
          (rw (← erased) (list_del-Represents l xs i r within)),
    ),
  )
]
