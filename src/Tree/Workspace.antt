-- ===== src/Tree/Workspace.antt =====
-- src/tree/workspace.c: the columns and the floating windows of a workspace, and which of its
-- windows is the active one.
pub mod Neighbours
use hayward.Common.{
  ℕ, zero, suc, ◌-◌, List, [], ◌∷◌, ◌++◌, Option, none, some, Bool, true, false, not, ◌==◌, ◌==?◌,
  length, get_elem?, drop, if◌then◌else◌,
}
use hayward.ListT.Seq.{index_of, insert_at, erase_at}
use hayward.Tree.State.{
  Tree, Window, Column, Workspace, Root, FocusMode, tiling, floating, workspace_node, column_node,
  output_node, put_window, put_column, put_workspace, put_root, set_dirty, ◌>>=◌, ◌>>◌, assert,
  is_null, is_detached,
}
use hayward.Tree.Window.{
  window_is_floating, window_is_fullscreen, window_reconcile_floating, window_reconcile_tiling,
  window_reconcile_detached,
}
use hayward.Tree.Column.{is_empty, find_in, column_set_dirty, column_set_active_child}

unfoldable pub workspace_set_dirty : Tree → ℕ → Tree
unfolding set_dirty
workspace_set_dirty t s = set_dirty t (workspace_node s)

unfoldable pub output_reconcile : Tree → ℕ → Tree
unfolding set_dirty
output_reconcile t o = set_dirty t (output_node o)

-- The loops that count down: the next position to look at is the one below `n`.
unfoldable pub find_down : (ℕ → Bool) → List ℕ → ℕ → Option ℕ
find_down test xs zero = none
find_down test xs (suc n) = elim (get_elem? xs n) [
  | none ↦ none
  | some c ↦ elim (test c) [ true ↦ some c | false ↦ find_down test xs n ]
]

unfoldable pub position_down : ℕ → List ℕ → ℕ → Option ℕ
position_down x xs zero = none
position_down x xs (suc n) = elim (get_elem? xs n) [
  | none ↦ none
  | some c ↦ elim (c == x) [ true ↦ some n | false ↦ position_down x xs n ]
]

abbrev pub on_output : Tree → Option ℕ → ℕ → Bool
on_output t output c = (t.columns c).output ==? output

unfoldable pub workspace_get_column_first : Tree → (workspace output : ℕ) → Option ℕ
unfolding find_in
workspace_get_column_first t s o = find_in (on_output t (some o)) (t.workspaces s).columns

unfoldable pub workspace_get_column_last : Tree → (workspace output : ℕ) → Option ℕ
unfolding find_down
workspace_get_column_last t s o =
    find_down (on_output t (some o)) (t.workspaces s).columns (length (t.workspaces s).columns)

-- The outer result is `none` where an assertion fails, the inner one where NULL is returned.
unfoldable pub workspace_get_column_before : Tree → (workspace column : ℕ) → Option (Option ℕ)
unfolding find_down position_down
workspace_get_column_before t s c = do
  assert ((t.columns c).workspace ==? some s)
  i ← position_down c (t.workspaces s).columns (length (t.workspaces s).columns)
  some (find_down (on_output t (t.columns c).output) (t.workspaces s).columns i)

unfoldable pub workspace_get_column_after : Tree → (workspace column : ℕ) → Option (Option ℕ)
unfolding index_of find_in
workspace_get_column_after t s c = do
  assert ((t.columns c).workspace ==? some s)
  i ← index_of c (t.workspaces s).columns
  some (find_in (on_output t (t.columns c).output) (drop (suc i) (t.workspaces s).columns))

-- A column without a place is given one, and both are marked.
abbrev pub place_column : Tree → (workspace column : ℕ) → List ℕ → (output : Option ℕ) → Tree
place_column t s c columns output =
    workspace_set_dirty
      (column_set_dirty
        (put_column (put_workspace t s (record (t.workspaces s) { columns = columns })) c
          (record (t.columns c) { workspace = some s; output = output }))
        c)
      s

abbrev pub is_placeless : Column → Bool
is_placeless col = if is_null col.workspace then is_null col.output else false

unfoldable pub workspace_insert_column_first : Tree → (workspace output column : ℕ) → Option Tree
unfolding insert_at workspace_set_dirty column_set_dirty
workspace_insert_column_first t s o c = do
  assert (is_placeless (t.columns c))
  some (place_column t s c (insert_at (t.workspaces s).columns 0 c) (some o))

unfoldable pub workspace_insert_column_last : Tree → (workspace output column : ℕ) → Option Tree
unfolding insert_at workspace_set_dirty column_set_dirty
workspace_insert_column_last t s o c = do
  assert (is_placeless (t.columns c))
  let columns = (t.workspaces s).columns
  some (place_column t s c (insert_at columns (length columns) c) (some o))

unfoldable pub workspace_insert_column_before : Tree → (workspace fixed column : ℕ) → Option Tree
unfolding index_of insert_at workspace_set_dirty column_set_dirty
workspace_insert_column_before t s fixed c = do
  assert (not (is_null (t.columns fixed).workspace))
  assert (is_placeless (t.columns c))
  i ← index_of fixed (t.workspaces s).columns
  some (place_column t s c (insert_at (t.workspaces s).columns i c) (t.columns fixed).output)

unfoldable pub workspace_insert_column_after : Tree → (workspace fixed column : ℕ) → Option Tree
unfolding index_of insert_at workspace_set_dirty column_set_dirty
workspace_insert_column_after t s fixed c = do
  assert (not (is_null (t.columns fixed).workspace))
  assert (is_placeless (t.columns c))
  i ← index_of fixed (t.workspaces s).columns
  some (place_column t s c (insert_at (t.workspaces s).columns (suc i) c) (t.columns fixed).output)

unfoldable pub workspace_get_active_output : Tree → ℕ → Option ℕ
workspace_get_active_output t s = do c ← (t.workspaces s).active_column; (t.columns c).output

unfoldable pub workspace_get_active_tiling_window : Tree → ℕ → Option ℕ
workspace_get_active_tiling_window t s = do
  c ← (t.workspaces s).active_column
  (t.columns c).active_child

unfoldable pub workspace_get_active_floating_window : Tree → ℕ → Option ℕ
workspace_get_active_floating_window t s =
    let ws = (t.workspaces s).floating_windows in
    if is_empty ws then none else get_elem? ws (length ws - 1)

unfoldable pub workspace_get_active_window : Tree → ℕ → Option ℕ
unfolding workspace_get_active_tiling_window workspace_get_active_floating_window
workspace_get_active_window t s = elim (t.workspaces s).focus_mode [
  | tiling ↦ workspace_get_active_tiling_window t s
  | floating ↦ workspace_get_active_floating_window t s
]
