-- ===== src/Tree/Column.antt =====
-- src/tree/column.c: the children of a column and which of them is active.
pub mod Children
pub mod Removal
pub mod Activation
use hayward.Common.{
  ℕ, suc, ◌+◌, ◌-◌, List, [], ◌∷◌, ◌++◌, Option, none, some, Bool, true, false, ◌==?◌, leb, length,
  get_elem?, if◌then◌else◌,
}
use hayward.ListT.Seq.{index_of, insert_at, erase_at}
use hayward.Tree.State.{
  Tree, Window, Column, column_node, put_column, set_dirty, ◌>>=◌, ◌>>◌, assert, is_detached,
}
use hayward.Tree.Window.{window_reconcile_tiling, window_reconcile_detached}

unfoldable pub column_set_dirty : Tree → ℕ → Tree
unfolding set_dirty
column_set_dirty t c = set_dirty t (column_node c)

abbrev pub is_empty {ℓ} : {A : Type ℓ} → List A → Bool
is_empty [] = true
is_empty (x ∷ xs) = false

-- The loop of column_find_child.
unfoldable pub find_in : (ℕ → Bool) → List ℕ → Option ℕ
find_in test [] = none
find_in test (w ∷ ws) = if test w then some w else find_in test ws

unfoldable pub column_find_child : Tree → ℕ → (ℕ → Bool) → Option ℕ
unfolding find_in
column_find_child t c test = find_in test (t.columns c).children

unfoldable pub column_get_first_child : Tree → ℕ → Option ℕ
column_get_first_child t c = get_elem? (t.columns c).children 0

unfoldable pub column_get_last_child : Tree → ℕ → Option ℕ
column_get_last_child t c =
    let children = (t.columns c).children in
    if is_empty children then none else get_elem? children (length children - 1)

-- A first child becomes the active one.
abbrev pub adopt : Column → ℕ → List ℕ → Column
adopt col w children = record col {
  children = children;
  active_child = if is_empty col.children then some w else col.active_child;
}

unfoldable pub column_insert_child : Tree → (column window index : ℕ) → Option Tree
unfolding insert_at window_reconcile_tiling column_set_dirty
column_insert_child t c w i = do
  assert (leb i (length (t.columns c).children))
  assert (is_detached (t.windows w))
  let added = put_column t c (adopt (t.columns c) w (insert_at (t.columns c).children i w))
  t ← window_reconcile_tiling added w c
  some (column_set_dirty t c)

unfoldable pub column_add_child : Tree → (column window : ℕ) → Option Tree
unfolding window_reconcile_tiling column_set_dirty
column_add_child t c w = do
  assert (is_detached (t.windows w))
  let added = put_column t c (adopt (t.columns c) w ((t.columns c).children ++ w ∷ []))
  t ← window_reconcile_tiling added w c
  some (column_set_dirty t c)

-- `after` counts as 0 or 1.
unfoldable pub column_add_sibling : Tree → (fixed active : ℕ) → (after : Bool) → Option Tree
unfolding index_of insert_at window_reconcile_tiling column_set_dirty
column_add_sibling t fixed active after = do
  assert (is_detached (t.windows active))
  c ← (t.windows fixed).column
  index ← index_of fixed (t.columns c).children
  let place = if after then suc index else index
  let added =
      put_column t c
        (record (t.columns c) { children = insert_at (t.columns c).children place active })
  t ← window_reconcile_tiling added fixed c
  t ← window_reconcile_tiling t active c
  some (column_set_dirty t c)

-- The child before the one at `index`, once that is gone, or the first.
abbrev pub neighbour : List ℕ → ℕ → Option ℕ
neighbour rest index = get_elem? rest (index - 1)

-- The new active child is told, if the old one is removed and it was not alone.
unfoldable pub reconcile_active : Tree → ℕ → Option ℕ → Option Tree
unfolding window_reconcile_tiling
reconcile_active t c none = some t
reconcile_active t c (some w) = window_reconcile_tiling t w c

unfoldable pub column_remove_child : Tree → (column window : ℕ) → Option Tree
unfolding index_of erase_at reconcile_active window_reconcile_detached column_set_dirty
column_remove_child t c w = do
  assert ((t.windows w).column ==? some c)
  index ← index_of w (t.columns c).children
  let rest = erase_at (t.columns c).children index
  let was_active = (t.columns c).active_child ==? some w
  let next = if was_active then neighbour rest index else (t.columns c).active_child
  let removed = put_column t c (record (t.columns c) { children = rest; active_child = next })
  t ← if was_active then reconcile_active removed c next else some removed
  some (column_set_dirty (window_reconcile_detached t w) c)

unfoldable pub column_set_active_child : Tree → (column window : ℕ) → Option Tree
unfolding reconcile_active window_reconcile_tiling column_set_dirty
column_set_active_child t c w = do
  assert ((t.windows w).column ==? some c)
  let prev = (t.columns c).active_child
  let chosen = put_column t c (record (t.columns c) { active_child = some w })
  let changed = (do
    u ← window_reconcile_tiling chosen w c
    u ← reconcile_active u c prev
    some (column_set_dirty u c))
  if prev ==? some w then some t else changed
