-- ===== src/Tests/Trees.antt =====
-- A tree with one workspace: windows 1 and 2 in its
-- column 1, column 2 empty, window 3 floating, and window 4,
-- which belongs nowhere.
use hayward.Common.{
  ℕ, suc, ◌-◌, ◌≡◌, refl, List, [], ◌∷◌, Option, none, some, true, false, arith, ◌==◌, get_elem?,
  if◌then◌else◌,
}
use hayward.ListT.Seq.{index_of, insert_at, remove, contains}
use hayward.ListT.Members.{IsNodup}
use hayward.Transaction.{hwd_transaction_manager_create}
use hayward.Tree.State.{Tree, Window, Column, Workspace, tiling}
use hayward.Tree.Inv.{IsWellFormed}
use hayward.Tree.Column.{column_add_sibling, column_remove_child}
use hayward.Tree.Column.Children.{IsPlaced, column_add_sibling_lem}
use hayward.Tree.Column.Removal.{IsRemoved, column_remove_child_lem}

abbrev window_in : Option ℕ → Option ℕ → Window
window_in workspace column = record {
  workspace = workspace;
  column = column;
  output_history = [];
  output = none;
  fullscreen = false;
  moving = false;
  is_sized = false;
  dead = false;
}

abbrev some_windows : ℕ → Window
some_windows w =
    if w == 1
    then window_in (some 1) (some 1)
    else if w == 2
    then window_in (some 1) (some 1)
    else if w == 3
    then record (window_in (some 1) none) { is_sized = true }
    else window_in none none

abbrev column_of : List ℕ → Option ℕ → Option ℕ → Column
column_of children active workspace = record {
  children = children;
  active_child = active;
  workspace = workspace;
  output = some 1;
  dead = false;
}

abbrev some_columns : ℕ → Column
some_columns c =
    if c == 1
    then column_of (1 ∷ 2 ∷ []) (some 2) (some 1)
    else if c == 2
    then column_of [] none (some 1)
    else column_of [] none none

abbrev workspace_of : List ℕ → List ℕ → Option ℕ → Workspace
workspace_of floating columns active = record {
  floating_windows = floating;
  columns = columns;
  active_column = active;
  focus_mode = tiling;
  dead = false;
}

abbrev some_workspaces : ℕ → Workspace
some_workspaces s =
    if s == 1 then workspace_of (3 ∷ []) (1 ∷ 2 ∷ []) (some 1) else workspace_of [] [] none

abbrev pub small_tree : Tree
small_tree = record {
  windows = some_windows;
  columns = some_columns;
  workspaces = some_workspaces;
  root = record {
    outputs = 1 ∷ [];
    workspaces = 1 ∷ [];
    active_workspace = some 1;
    active_output = some 1;
    active_layer = none;
    active_unmanaged = none;
  };
  dirty = λ n. false;
  manager = hwd_transaction_manager_create;
}

children_nodup_lem : (c : ℕ) → IsNodup (some_columns c).children
unfolding contains
children_nodup_lem c = ground arith

pub small_tree-IsWellFormed : IsWellFormed small_tree
unfolding contains
small_tree-IsWellFormed = record {
  child_column = λ c w h. ground arith;
  column_child = λ c w h. ground arith;
  child_workspace = λ c w h. ground arith;
  children_nodup = children_nodup_lem;
  active_in = λ c a h. ground arith;
  active_some = λ c h. ground arith;
  floating_back = λ s w h. (ground arith, ground arith, ground arith);
  back_floating = λ s w h k. ground arith;
  floating_nodup = λ s. ground arith;
  attached_alive = λ w h. ground arith;
}

column_add_sibling_lem_example :
    (i : ℕ) × (t' : Tree) × (index_of 1 (1 ∷ 2 ∷ []) ≡ some i)
    × (column_add_sibling small_tree 1 4 true ≡ some t')
    × IsPlaced small_tree t' 1 4 (insert_at (1 ∷ 2 ∷ []) (suc i) 4)
column_add_sibling_lem_example =
    column_add_sibling_lem small_tree small_tree-IsWellFormed 1 4 refl refl 1 true refl

column_remove_child_lem_example :
    (i : ℕ) × (t' : Tree) × (index_of 2 (1 ∷ 2 ∷ []) ≡ some i)
    × (column_remove_child small_tree 1 2 ≡ some t')
    × IsRemoved small_tree t' 1 2 (get_elem? (remove 2 (1 ∷ 2 ∷ [])) (i - 1))
column_remove_child_lem_example =
    column_remove_child_lem small_tree small_tree-IsWellFormed 1 2 refl
