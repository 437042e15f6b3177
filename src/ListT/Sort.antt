-- ===== src/ListT/Sort.antt =====
-- src/list.c: list_rotate, list_inplace_merge, list_inplace_sort and list_stable_sort. The sort
-- works on the slots of a buffer by a comparison function; `int` indices are natural numbers, as
-- none of them becomes negative. The merge loop runs on fuel: it has as many rounds left as items,
-- since each round moves `left` on. The recursive sort runs on fuel too, one more than the
-- distance that it is called with, which falls at each call.
pub mod Order
pub mod Merge
mod InPlace
mod Runs
mod Correct
pub mod Slots
use hayward.Common.{
  ℕ, zero, suc, ◌+◌, ◌-◌, ◌/◌, List, Option, none, some, Bool, true, false, ◌&&◌, ℤ, pos, negsuc,
  is_nonpos, set, get_elem?, leb, ltb, ◌==◌, if◌then◌else◌,
}
use hayward.ListT.{ListT, swap_items}

module _ {ℓ} {B : Type ℓ} where
  -- items[dst] = items[src]
  pub copy_item : List B → ℕ → ℕ → List B
  copy_item items dst src = elim (get_elem? items src) [ none ↦ items | some v ↦ set items dst v ]

  -- The `while` of list_rotate, with `k` = to - from rounds left.
  pub shift_right : List B → ℕ → ℕ → List B
  unfolding copy_item
  shift_right items to zero = items
  shift_right items to (suc k) = shift_right (copy_item items to (to - 1)) (to - 1) k

  pub list_rotate : List B → ℕ → ℕ → List B
  unfolding shift_right
  list_rotate items from to = elim (get_elem? items to) [
    | none ↦ items
    | some tmp ↦ set (shift_right items to (to - from)) from tmp
  ]

module _ {ℓ} {B : Type ℓ} (compare : B → B → ℤ) where
  -- compare(&items[i], &items[j])
  pub compare_at : List B → ℕ → ℕ → ℤ
  compare_at items i j = elim (get_elem? items i) [
    | none ↦ pos 0
    | some a ↦ elim (get_elem? items j) [ none ↦ pos 0 | some b ↦ compare a b ]
  ]

  pub merge_loop : ℕ → List B → (left last mid right : ℕ) → List B
  unfolding list_rotate
  merge_loop zero items left last mid right = items
  merge_loop (suc fuel) items left last mid right = elim (leb left mid && leb right last) [
    | false ↦ items
    | true ↦ elim (is_nonpos (compare_at items left right)) [
      | true ↦ merge_loop fuel items (suc left) last mid right
      | false ↦ merge_loop fuel (list_rotate items left right) (suc left) last (suc mid) (suc right)
    ]
  ]

  pub list_inplace_merge : List B → (left last mid : ℕ) → List B
  unfolding merge_loop compare_at
  list_inplace_merge items left last mid =
      let right = mid + 1 in
      if is_nonpos (compare_at items mid right)
      then items
      else merge_loop (suc last - left) items left last mid right

  pub list_inplace_sort : ℕ → List B → (first last : ℕ) → List B
  unfolding list_inplace_merge swap_items
  list_inplace_sort zero items first last = items
  list_inplace_sort (suc fuel) items first last = elim (leb last first) [
    | true ↦ items
    | false ↦ elim (last - first == 1) [
      | true ↦
          if is_nonpos (compare_at items first last) then items else swap_items items first last
      | false ↦
          let mid = (last + first) / 2 in
          let lower = list_inplace_sort fuel items first mid in
          let upper = list_inplace_sort fuel lower (mid + 1) last in
          list_inplace_merge upper first last mid
    ]
  ]

-- The comparison of two slots. They are initialised wherever the sort looks; an uninitialised one
-- would count as the greatest.
pub compare_slots {ℓ} : {A : Type ℓ} → (A → A → ℤ) → Option A → Option A → ℤ
compare_slots compare (some a) (some b) = compare a b
compare_slots compare (some a) none = negsuc 0
compare_slots compare none (some b) = pos 1
compare_slots compare none none = pos 0

pub list_stable_sort {ℓ} : {A : Type ℓ} → (A → A → ℤ) → ListT A → ListT A
unfolding list_inplace_sort compare_slots
list_stable_sort compare l =
    if ltb 1 l.length
    then record l {
      items = list_inplace_sort (compare_slots compare) l.length l.items 0 (l.length - 1);
    }
    else l
