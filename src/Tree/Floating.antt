-- ===== src/Tree/Floating.antt =====
-- src/tree/workspace.c: workspace_add_floating and workspace_remove_floating.
pub mod Adding
mod Staging
pub mod Leaving
use hayward.Common.{
  ℕ, List, [], ◌∷◌, ◌++◌, Option, none, some, Bool, true, false, ◌==?◌, if◌then◌else◌,
}
use hayward.ListT.Seq.{index_of, erase_at}
use hayward.Tree.State.{
  Tree, Window, Workspace, tiling, put_window, put_workspace, ◌>>=◌, ◌>>◌, assert, is_null,
  is_detached,
}
use hayward.Tree.Window.{
  window_is_fullscreen, window_reconcile_floating, window_reconcile_tiling,
  window_reconcile_detached,
}
use hayward.Tree.Column.{is_empty}
use hayward.Tree.Workspace.{
  workspace_set_dirty, output_reconcile, workspace_get_active_tiling_window,
  workspace_get_active_floating_window,
}

-- The windows that float in `s`, the active one last.
abbrev pub put_floating : Tree → ℕ → List ℕ → Tree
put_floating t s ws = put_workspace t s (record (t.workspaces s) { floating_windows = ws })

-- A window without a history is taken to be on the active output, which may be NULL.
unfoldable pub assign_output : Tree → ℕ → Tree
assign_output t w =
    if is_empty (t.windows w).output_history
    then put_window t w (record (t.windows w) {
      output_history = t.root.active_output ∷ [];
      output = t.root.active_output;
    })
    else t

-- The window that was on top, if any, is told where it is.
unfoldable pub reconcile_top : Tree → (workspace : ℕ) → Option ℕ → Option Tree
unfolding window_reconcile_floating
reconcile_top t s none = some t
reconcile_top t s (some p) = window_reconcile_floating t p s

unfoldable pub workspace_add_floating : Tree → (workspace window : ℕ) → Option Tree
unfolding assign_output reconcile_top window_reconcile_floating workspace_set_dirty
workspace_add_floating t s w = do
  assert (is_detached (t.windows w))
  let prev = workspace_get_active_floating_window t s
  let added = put_floating t s ((t.workspaces s).floating_windows ++ w ∷ [])
  t ← window_reconcile_floating (assign_output added w) w s
  t ← reconcile_top t s prev
  some (workspace_set_dirty t s)

-- Without floating windows the tiling ones have the focus again; a NULL column is dereferenced.
unfoldable pub back_to_tiling : Tree → ℕ → Option Tree
unfolding workspace_get_active_tiling_window window_reconcile_tiling
back_to_tiling t s =
    let tiled = put_workspace t s (record (t.workspaces s) { focus_mode = tiling }) in
    elim (workspace_get_active_tiling_window tiled s) [
      | none ↦ some tiled
      | some next ↦ (do c ← (tiled.windows next).column; window_reconcile_tiling tiled next c)
    ]

-- The window that floats on top now.
unfoldable pub next_floating : Tree → ℕ → Option Tree
unfolding workspace_get_active_floating_window window_reconcile_floating
next_floating t s = do
  next ← workspace_get_active_floating_window t s
  window_reconcile_floating t next s

-- A fullscreen window's output is told; NULL fails its assertion.
unfoldable pub reconcile_output : Tree → ℕ → Option Tree
unfolding window_is_fullscreen output_reconcile
reconcile_output t w = elim (window_is_fullscreen t w) [
  | false ↦ some t
  | true ↦ (do o ← (t.windows w).output; some (output_reconcile t o))
]

unfoldable pub workspace_remove_floating : Tree → (workspace window : ℕ) → Option Tree
unfolding index_of erase_at back_to_tiling next_floating reconcile_output window_reconcile_detached
workspace_remove_floating t s w = do
  assert ((t.windows w).workspace ==? some s)
  assert (is_null (t.windows w).column)
  index ← index_of w (t.workspaces s).floating_windows
  let rest = erase_at (t.workspaces s).floating_windows index
  let gone = put_floating t s rest
  t ← elim (is_empty rest) [ true ↦ back_to_tiling gone s | false ↦ next_floating gone s ]
  t ← reconcile_output t w
  some (window_reconcile_detached t w)
