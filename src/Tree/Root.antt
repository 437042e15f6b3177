-- ===== src/Tree/Root.antt =====
-- src/tree/root.c: the workspace that is shown and what has the focus: a surface that the clients'
-- protocol leaves unmanaged, a layer, or the active window of the workspace.
pub mod Shown
use hayward.Common.{ℕ, List, [], ◌∷◌, Option, none, some, true, false, ◌==?◌, if◌then◌else◌}
use hayward.Tree.State.{Tree, put_root, ◌>>=◌, is_null}
use hayward.Tree.Workspace.{
  workspace_set_dirty, output_reconcile, workspace_get_active_output, workspace_get_active_window,
}
use hayward.Tree.Focus.{workspace_set_active_window}
use hayward.Tree.Lifecycle.{workspace_consider_destroy, root_set_dirty}

unfoldable pub reconcile_outputs : Tree → List ℕ → Tree
unfolding output_reconcile
reconcile_outputs t [] = t
reconcile_outputs t (o ∷ os) = reconcile_outputs (output_reconcile t o) os

-- The workspace that was shown before may be destroyed.
unfoldable pub leave_workspace : Tree → Option ℕ → Tree
leave_workspace t none = t
leave_workspace t (some s) = workspace_set_dirty (workspace_consider_destroy t s) s

-- The active output follows the workspace, if that has a column to go by.
unfoldable pub follow_output : Tree → Option ℕ → Tree
follow_output t none = t
follow_output t (some o) = put_root t (record t.root { active_output = some o })

unfoldable pub root_set_active_workspace : Tree → ℕ → Tree
unfolding workspace_get_active_output
root_set_active_workspace t s =
    let old = t.root.active_workspace in
    let shown = put_root t (record t.root { active_workspace = some s }) in
    let marked = workspace_set_dirty (leave_workspace shown old) s in
    let followed = follow_output marked (workspace_get_active_output marked s) in
    if some s ==? old then t else root_set_dirty (reconcile_outputs followed followed.root.outputs)

unfoldable pub root_get_focused_unmanaged : Tree → Option ℕ
root_get_focused_unmanaged t = t.root.active_unmanaged

unfoldable pub root_get_focused_layer : Tree → Option ℕ
root_get_focused_layer t = if is_null t.root.active_unmanaged then t.root.active_layer else none

-- The outer result is `none` where the assertion fails.
unfoldable pub root_get_focused_window : Tree → Option (Option ℕ)
root_get_focused_window t = elim (is_null t.root.active_unmanaged) [
  | false ↦ some none
  | true ↦ elim (is_null t.root.active_layer) [
    | false ↦ some none
    | true ↦ (do s ← t.root.active_workspace; some (workspace_get_active_window t s))
  ]
]

unfoldable pub root_set_focused_layer : Tree → Option ℕ → Tree
root_set_focused_layer t layer = put_root t (record t.root {
  active_unmanaged = if is_null layer then t.root.active_unmanaged else none;
  active_layer = layer;
})

-- A surface takes the focus from the layer and from the windows of the workspace.
unfoldable pub unfocus_window : Tree → Option ℕ → Option Tree
unfocus_window t none = some t
unfocus_window t (some s) = workspace_set_active_window t s none

unfoldable pub root_set_focused_surface : Tree → Option ℕ → Option Tree
root_set_focused_surface t none = some (put_root t (record t.root { active_unmanaged = none }))
root_set_focused_surface t (some surface) = do
  let bare = root_set_focused_layer t none
  t ← unfocus_window bare bare.root.active_workspace
  some (put_root t (record t.root { active_unmanaged = some surface }))

unfoldable pub root_set_focused_window : Tree → ℕ → Option Tree
root_set_focused_window t w = do
  s ← (t.windows w).workspace
  t ← root_set_focused_surface (root_set_focused_layer t none) none
  workspace_set_active_window (root_set_active_workspace t s) s (some w)
