-- ===== src/Tree/Focus.antt =====
-- src/tree/workspace.c, workspace_set_active_window, and src/tree/root.c: which workspace, window,
-- layer or surface has the focus.
pub mod Branches
pub mod Choice
use hayward.Common.{
  ℕ, List, [], ◌∷◌, ◌++◌, Option, none, some, Bool, true, false, not, ◌==?◌, if◌then◌else◌,
}
use hayward.ListT.Seq.{index_of, erase_at}
use hayward.Tree.State.{
  Tree, Window, Column, Workspace, Root, FocusMode, tiling, floating, put_workspace, put_root,
  ◌>>=◌, ◌>>◌, assert, is_null,
}
use hayward.Tree.Window.{window_is_floating, window_reconcile_floating, window_reconcile_tiling}
use hayward.Tree.Column.{column_set_active_child}
use hayward.Tree.Workspace.{workspace_set_dirty, workspace_get_active_window}

unfoldable pub root_set_active_output : Tree → Option ℕ → Option Tree
root_set_active_output t o = do
  assert (not (is_null o))
  some (put_root t (record t.root { active_output = o }))

-- The three branches of workspace_set_active_window: no window, a floating one, one of a column.
unfoldable pub focus_nothing : Tree → (workspace : ℕ) → Tree
focus_nothing t s =
    put_workspace t s (record (t.workspaces s) { active_column = none; focus_mode = tiling })

unfoldable pub focus_floating : Tree → (workspace window : ℕ) → Option Tree
unfolding index_of erase_at window_reconcile_floating
focus_floating t s w = do
  assert ((t.windows w).workspace ==? some s)
  index ← index_of w (t.workspaces s).floating_windows
  let raised = erase_at (t.workspaces s).floating_windows index ++ w ∷ []
  let space = record (t.workspaces s) { floating_windows = raised; focus_mode = floating }
  window_reconcile_floating (put_workspace t s space) w s

unfoldable pub focus_tiling : Tree → (workspace window : ℕ) → Option Tree
focus_tiling t s w = do
  assert ((t.windows w).workspace ==? some s)
  c ← (t.windows w).column
  assert ((t.columns c).workspace ==? some s)
  t ← column_set_active_child t c w
  let space = record (t.workspaces s) { active_column = some c; focus_mode = tiling }
  let chosen = put_workspace t s space
  let with_output = root_set_active_output chosen (chosen.columns c).output
  if chosen.root.active_workspace ==? some s then with_output else some chosen

unfoldable pub focus_window : Tree → (workspace : ℕ) → Option ℕ → Option Tree
focus_window t s none = some (focus_nothing t s)
focus_window t s (some w) = elim (window_is_floating t w) [
  | true ↦ focus_floating t s w
  | false ↦ focus_tiling t s w
]

-- The window that had the focus is told where it is; a NULL column is dereferenced.
unfoldable pub reconcile_previous : Tree → (workspace : ℕ) → Option ℕ → Option Tree
unfolding window_is_floating window_reconcile_floating window_reconcile_tiling
reconcile_previous t s none = some t
reconcile_previous t s (some p) = elim (window_is_floating t p) [
  | true ↦ window_reconcile_floating t p s
  | false ↦ (do c ← (t.windows p).column; window_reconcile_tiling t p c)
]

unfoldable pub workspace_set_active_window : Tree → (workspace : ℕ) → Option ℕ → Option Tree
workspace_set_active_window t s window =
    let prev = workspace_get_active_window t s in
    let changed = (do
      u ← focus_window t s window
      u ← reconcile_previous u s prev
      some (workspace_set_dirty u s)) in
    if window ==? prev then some t else changed
