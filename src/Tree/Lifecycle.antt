-- ===== src/Tree/Lifecycle.antt =====
-- The ends of columns and workspaces (column_consider_destroy of src/tree/column.c and
-- workspace_consider_destroy of src/tree/workspace.c), and window_detach of src/tree/window.c.
pub mod Detach
pub mod Kept
pub mod Successor
use hayward.Common.{
  ℕ, suc, List, [], ◌∷◌, Option, none, some, Bool, true, false, not, ◌&&◌, ◌==?◌, leb,
  if◌then◌else◌,
}
use hayward.ListT.Seq.{index_of, erase_at, remove}
use hayward.Tree.State.{
  Tree, Window, Column, Workspace, Root, root_node, put_workspace, put_root, set_dirty, ◌>>=◌, ◌>>◌,
  assert, is_null,
}
use hayward.Tree.Window.{window_set_dirty}
use hayward.Tree.Column.{is_empty, column_set_dirty, column_remove_child}
use hayward.Tree.Workspace.{workspace_set_dirty, on_output}
use hayward.Tree.Floating.{workspace_remove_floating}

unfoldable pub root_set_dirty : Tree → Tree
unfolding set_dirty
root_set_dirty t = set_dirty t root_node

unfoldable pub workspace_is_alive : Tree → ℕ → Bool
workspace_is_alive t s = not (t.workspaces s).dead

unfoldable pub workspace_is_visible : Tree → ℕ → Bool
workspace_is_visible t s =
    if (t.workspaces s).dead then false else t.root.active_workspace ==? some s

-- A workspace that has nothing in it and is not shown, and is not dead yet, is destroyed.
unfoldable pub is_unused : Tree → ℕ → Bool
is_unused t s =
    not (t.workspaces s).dead
    && is_empty (t.workspaces s).columns
    && is_empty (t.workspaces s).floating_windows
    && not (t.root.active_workspace ==? some s)

abbrev pub buried : Tree → ℕ → Tree
buried t s =
    put_root (put_workspace t s (record (t.workspaces s) { dead = true }))
      (record t.root { workspaces = remove s t.root.workspaces })

unfoldable pub workspace_consider_destroy : Tree → ℕ → Tree
unfolding is_unused remove workspace_set_dirty root_set_dirty
workspace_consider_destroy t s =
    if is_unused t s then root_set_dirty (workspace_set_dirty (buried t s) s) else t

-- The loop of column_consider_destroy over the columns that are left: the last one on the output
-- in front of the old position, or else the first one after it.
unfoldable pub next_active : (ℕ → Bool) → (index candidate : ℕ) → Option ℕ → List ℕ → Option ℕ
next_active same index candidate next [] = next
next_active same index candidate next (c ∷ cs) = elim (same c) [
  | false ↦ next_active same index (suc candidate) next cs
  | true ↦ elim (not (is_null next) && leb index candidate) [
    | true ↦ next
    | false ↦ next_active same index (suc candidate) (some c) cs
  ]
]

abbrev pub mark_column : Tree → Option ℕ → Tree
mark_column t none = t
mark_column t (some c) = column_set_dirty t c

-- The active column of `s`, if `c` has been it and is gone from position `index`.
unfoldable pub replace_active : Tree → (workspace column index : ℕ) → Tree
unfolding next_active column_set_dirty
replace_active t s c index =
    let space = t.workspaces s in
    let next = next_active (on_output t (t.columns c).output) index 0 none space.columns in
    if space.active_column ==? some c
    then mark_column (put_workspace t s (record space { active_column = next })) next
    else t

unfoldable pub destroy_column : Tree → (column : ℕ) → Option Tree
unfolding index_of erase_at column_set_dirty workspace_set_dirty
destroy_column t c = do
  s ← (t.columns c).workspace
  assert (not (is_null (t.columns c).output))
  index ← index_of c (t.workspaces s).columns
  let rest = erase_at (t.workspaces s).columns index
  let gone = put_workspace t s (record (t.workspaces s) { columns = rest })
  let replaced = replace_active gone s c index
  some (workspace_set_dirty (column_set_dirty (workspace_consider_destroy replaced s) c) s)

unfoldable pub column_consider_destroy : Tree → ℕ → Option Tree
column_consider_destroy t c =
    let destroyed = destroy_column t c in
    if (t.columns c).dead
    then some t
    else if is_empty (t.columns c).children
    then destroyed
    else some t

unfoldable pub leave : Tree → (window workspace : ℕ) → Option ℕ → Option Tree
leave t w s (some c) = column_remove_child t c w
leave t w s none = workspace_remove_floating t s w

unfoldable pub window_detach : Tree → ℕ → Option Tree
unfolding leave window_set_dirty
window_detach t w = elim (t.windows w).workspace [
  | none ↦ some t
  | some s ↦ (do t ← leave t w s (t.windows w).column; some (window_set_dirty t w))
]
