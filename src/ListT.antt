-- ===== src/ListT.antt =====
-- src/list.c: the growable array of pointers, `list_t`. An uninitialised slot is `none`; an index
-- returned by a search is `none` for -1. Capacities and lengths do not overflow `int`, and
-- malloc and realloc succeed.
pub mod Seq
mod Gap
pub mod Refine
pub mod Positions
pub mod Members
pub mod Search
pub mod Sort
use hayward.Common.{
  ℕ, zero, suc, ◌+◌, ◌-◌, ◌*◌, List, [], ◌∷◌, ◌++◌, Option, none, some, Bool, true, false, ℤ, pos,
  negsuc, take, drop, set, get_elem?, replicate, ◌==◌, ◌==?◌, if◌then◌else◌,
}

pub record ListT {ℓ} (A : Type ℓ) : Type ℓ where
  pub capacity : ℕ
  pub length : ℕ
  pub items : List (Option A)

-- Two slots exchanged; an index outside the buffer is no case that arises.
pub swap_items {ℓ} : {B : Type ℓ} → List B → ℕ → ℕ → List B
swap_items items src dest = elim (get_elem? items src) [
  | none ↦ items
  | some tmp ↦ elim (get_elem? items dest) [
    | none ↦ items
    | some other ↦ set (set items src other) dest tmp
  ]
]

module _ {ℓ} {A : Type ℓ} where
  -- What a slot of the buffer holds; nothing outside the buffer.
  pub slot : List (Option A) → ℕ → Option A
  slot items i = elim (get_elem? items i) [ none ↦ none | some o ↦ o ]

  -- C's memmove within one buffer: `n` slots from `src` on are copied to `dst` on.
  pub memmove : List (Option A) → ℕ → ℕ → ℕ → List (Option A)
  memmove items dst src n = take dst items ++ (take n (drop src items) ++ drop (dst + n) items)

  pub create_list : ListT A
  create_list = record { capacity = 10; length = 0; items = replicate 10 none }

  -- realloc to twice the capacity leaves the new slots uninitialised.
  pub list_resize : ListT A → ListT A
  list_resize l =
      if l.length == l.capacity
      then record l { capacity = l.capacity * 2; items = l.items ++ replicate l.capacity none }
      else l

  pub list_add : ListT A → A → ListT A
  unfolding list_resize
  list_add l item =
      let r = list_resize l in
      record r { items = set r.items r.length (some item); length = suc r.length }

  pub list_insert : ListT A → ℕ → A → ListT A
  unfolding list_resize memmove
  list_insert l index item =
      let r = list_resize l in
      let moved = memmove r.items (index + 1) index (r.length - index) in
      record r { items = set moved index (some item); length = suc r.length }

  pub list_del : ListT A → ℕ → ListT A
  unfolding memmove
  list_del l index =
      let n = l.length - 1 in
      record l { length = n; items = memmove l.items index (index + 1) (n - index) }

  pub list_clear : ListT A → ListT A
  list_clear l = record l { length = 0 }

  -- The loop of list_cat: `k` rounds are left, and the next one reads slot `i` of the source.
  pub cat_loop : ListT A → List (Option A) → ℕ → ℕ → ListT A
  cat_loop l source zero i = l
  cat_loop l source (suc k) i =
      cat_loop (elim (slot source i) [ none ↦ l | some item ↦ list_add l item ]) source k (suc i)

  pub list_cat : ListT A → ListT A → ListT A
  unfolding cat_loop
  list_cat l source = cat_loop l source.items source.length 0

  pub list_swap : ListT A → ℕ → ℕ → ListT A
  unfolding swap_items
  list_swap l src dest = record l { items = swap_items l.items src dest }

  -- The loop of list_seq_find: `compare` is 0 at the item that is looked for.
  pub seq_find_loop : (A → ℤ) → List (Option A) → ℕ → ℕ → Option ℕ
  seq_find_loop compare items zero i = none
  seq_find_loop compare items (suc k) i =
      let rest = seq_find_loop compare items k (suc i) in
      elim (slot items i) [
        | none ↦ rest
        | some item ↦ elim (compare item) [
          | pos n ↦ elim n [ zero ↦ some i | suc _ ↦ rest ]
          | negsuc _ ↦ rest
        ]
      ]

  pub list_seq_find : ListT A → (A → ℤ) → Option ℕ
  unfolding seq_find_loop
  list_seq_find l compare = seq_find_loop compare l.items l.length 0

-- Items that are compared as pointers are addresses.
pub find_loop : List (Option ℕ) → ℕ → ℕ → ℕ → Option ℕ
find_loop items item zero i = none
find_loop items item (suc k) i =
    let rest = find_loop items item k (suc i) in if slot items i ==? some item then some i else rest

pub list_find : ListT ℕ → ℕ → Option ℕ
unfolding find_loop
list_find l item = find_loop l.items item l.length 0

pub list_remove : ListT ℕ → ℕ → ListT ℕ
list_remove l item = elim (list_find l item) [ none ↦ l | some index ↦ list_del l index ]

-- `none` is the failure of the assertion that the item is in the list.
pub list_move_to_end : ListT ℕ → ℕ → Option (ListT ℕ)
list_move_to_end l item = elim (list_find l item) [
  | none ↦ none
  | some index ↦ some (list_add (list_del l index) item)
]
