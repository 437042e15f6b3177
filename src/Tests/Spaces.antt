-- ===== src/Tests/Spaces.antt =====
-- The small tree's workspace: floating windows, focus, columns and their end.
use hayward.Common.{ℕ, ◌≡◌, ◌≢◌, refl, [], ◌∷◌, none, some, true, arith, take, drop}
use hayward.ListT.Seq.{index_of, remove, contains}
use hayward.ListT.Members.{IsNodup}
use hayward.Tree.State.{Tree}
use hayward.Tree.Column.{find_in}
use hayward.Tree.Workspace.{on_output, workspace_get_column_after, workspace_get_column_before}
use hayward.Tree.Workspace.Neighbours.{workspace_get_column_before-after}
use hayward.Tree.Window.{can_float}
use hayward.Tree.Floating.{assign_output, workspace_add_floating, workspace_remove_floating}
use hayward.Tree.Floating.Adding.{IsFloated, workspace_add_floating_lem}
use hayward.Tree.Floating.Leaving.{IsUnfloated, workspace_remove_floating_lem}
use hayward.Tree.Focus.{workspace_set_active_window}
use hayward.Tree.Focus.Branches.{IsFocused}
use hayward.Tree.Focus.Choice.{workspace_set_active_window_lem}
use hayward.Tree.Lifecycle.{window_detach, column_consider_destroy}
use hayward.Tree.Lifecycle.Detach.{IsDetached, window_detach_lem}
use hayward.Tree.Lifecycle.Successor.{IsGone, or_later, last_from, column_consider_destroy_lem}
use hayward.Tree.Root.{root_set_focused_window}
use hayward.Tree.Root.Shown.{HasFocus, root_set_focused_window_lem}
use hayward.Tests.Trees.{small_tree, small_tree-IsWellFormed}

is_placed : can_float ((assign_output small_tree 4).windows 4) ≡ true
unfolding assign_output
is_placed = refl

workspace_add_floating_lem_example :
    (t' : Tree) × (workspace_add_floating small_tree 1 4 ≡ some t') × IsFloated small_tree t' 1 4
workspace_add_floating_lem_example =
    workspace_add_floating_lem small_tree small_tree-IsWellFormed 1 4 refl refl is_placed

no_output_needed : (small_tree.windows 3).fullscreen ≡ true → (small_tree.windows 3).output ≢ none
no_output_needed e = absurd (ground arith)

workspace_remove_floating_lem_example :
    (t' : Tree) × (workspace_remove_floating small_tree 1 3 ≡ some t')
    × IsUnfloated small_tree t' 1 3
workspace_remove_floating_lem_example =
    workspace_remove_floating_lem small_tree small_tree-IsWellFormed 1 3 refl refl no_output_needed

window_detach_lem_example : (t' : Tree) × (window_detach small_tree 3 ≡ some t') × IsDetached t' 3
window_detach_lem_example =
    window_detach_lem small_tree small_tree-IsWellFormed 3 1 refl no_output_needed

on_an_output :
    (c : ℕ) → (small_tree.windows 1).column ≡ some c → (small_tree.columns c).output ≢ none
on_an_output c e n = ground arith

workspace_set_active_window_lem_example :
    (t' : Tree) × (workspace_set_active_window small_tree 1 (some 1) ≡ some t')
    × IsFocused small_tree t' 1 1
workspace_set_active_window_lem_example =
    workspace_set_active_window_lem small_tree small_tree-IsWellFormed 1 1 refl on_an_output

next_column : workspace_get_column_after small_tree 1 1 ≡ some (some 2)
unfolding workspace_get_column_after index_of find_in
next_column = refl

columns_once : IsNodup (1 ∷ 2 ∷ [])
unfolding contains
columns_once = (refl, (refl, tt))

workspace_get_column_before-after_example :
    workspace_get_column_before small_tree 1 2 ≡ some (some 1)
workspace_get_column_before-after_example =
    workspace_get_column_before-after small_tree 1 1 2 columns_once refl next_column

second_listed : contains 2 (1 ∷ 2 ∷ []) ≡ true
unfolding contains
second_listed = refl

column_consider_destroy_lem_example :
    (i : ℕ) × (t' : Tree) × (index_of 2 (1 ∷ 2 ∷ []) ≡ some i)
    × (column_consider_destroy small_tree 2 ≡ some t')
    × IsGone small_tree t' 1 2 (
        or_later
          (last_from (on_output small_tree (some 1)) none (take i (remove 2 (1 ∷ 2 ∷ []))))
          (find_in (on_output small_tree (some 1)) (drop i (remove 2 (1 ∷ 2 ∷ [])))))
column_consider_destroy_lem_example =
    column_consider_destroy_lem small_tree small_tree-IsWellFormed 1 2 refl refl refl
      (λ e. ground arith) second_listed

root_set_focused_window_lem_example :
    (t' : Tree) × (root_set_focused_window small_tree 1 ≡ some t') × HasFocus t' 1 1
root_set_focused_window_lem_example =
    root_set_focused_window_lem small_tree small_tree-IsWellFormed 1 1 refl on_an_output
