-- ===== src/Tree/Floating/Leaving.antt =====
-- workspace_remove_floating of workspace.c, in a well-formed tree.
use mathlib.Core.Path.{fun_ext}
use hayward.Common.{
  ℕ, ◌≡◌, ◌≢◌, refl, ◌∙◌, inl, inr, none, some, true, arith, if◌then◌else◌, Bool-cases,
  Option-cases,
}
use hayward.ListT.Seq.{index_of, erase_at, remove}
use hayward.ListT.Positions.{index_of-cases}
use hayward.ListT.Members.{IsNodup-remove}
use hayward.Tree.State.{Tree, Workspace, tiling, workspace_node, is_detached}
use hayward.Tree.Window.{window_set_dirty, window_is_fullscreen, window_reconcile_detached}
use hayward.Tree.Inv.{IsWellFormed}
use hayward.Tree.Floats.{unfloat-Inv}
use hayward.Tree.Column.{is_empty}
use hayward.Tree.Workspace.{output_reconcile}
use hayward.Tree.Floating.{
  put_floating, back_to_tiling, next_floating, reconcile_output, workspace_remove_floating,
}
use hayward.Tree.Floating.Staging.{
  IsStaged, rest, tiling_space, floating_space, left, to_tiling, to_floating,
}

-- The window `w` no longer floats in `s`, whose mark is as it was.
pub record IsUnfloated (t t' : Tree) (s w : ℕ) : Type 0 where
  pub well_formed : IsWellFormed t'
  pub floating_now : (t'.workspaces s).floating_windows ≡ remove w (t.workspaces s).floating_windows
  pub detached : is_detached (t'.windows w) ≡ true
  pub mode : (t'.workspaces s).focus_mode ≡ (
      if is_empty (remove w (t.workspaces s).floating_windows)
      then tiling
      else (t.workspaces s).focus_mode)
  pub same_columns : t'.columns ≡ t.columns
  pub unmarked : t'.dirty (workspace_node s) ≡ t.dirty (workspace_node s)

reconcile_output_lem :
    (t : Tree) (w : ℕ)
    → ((t.windows w).fullscreen ≡ true → (t.windows w).output ≢ none)
    → (t' : Tree) × (reconcile_output t w ≡ some t')
      × (t'.windows ≡ t.windows)
      × (t'.columns ≡ t.columns)
      × (t'.workspaces ≡ t.workspaces)
      × ((s : ℕ) → t'.dirty (workspace_node s) ≡ t.dirty (workspace_node s))
unfolding reconcile_output output_reconcile window_is_fullscreen
reconcile_output_lem t w h = elim (Bool-cases (t.windows w).fullscreen) [
  | inr e ↦ (t, ground arith, refl, refl, refl, λ s. refl)
  | inl e ↦ elim (Option-cases (t.windows w).output) [
    | inl n ↦ absurd (h e n)
    | inr (o, out) ↦ (output_reconcile t o, ground arith, refl, refl, refl, λ s. refl)
  ]
]

module _ (t : Tree) (v : IsWellFormed t) (s w : ℕ) (here : (t.windows w).workspace ≡ some s)
    (up : (t.windows w).column ≡ none) where
  left-IsUnfloated :
      (t1 t2 : Tree) (space : Workspace)
      → IsStaged t t1 s w space
      → space.floating_windows ≡ (rest t v s w here up)
      → t2.windows ≡ t1.windows
      → t2.columns ≡ t1.columns
      → t2.workspaces ≡ t1.workspaces
      → t2.dirty (workspace_node s) ≡ t1.dirty (workspace_node s)
      → space.focus_mode
        ≡ (if is_empty (rest t v s w here up) then tiling else (t.workspaces s).focus_mode)
      → IsUnfloated t (window_reconcile_detached t2 w) s w
  unfolding window_reconcile_detached window_set_dirty
  left-IsUnfloated t1 t2 space staged spaced ws cs ss dd m = record {
    well_formed =
        rw (ws, cs, ss, staged.same_columns, fun_ext staged.workspaces_now)
          (unfloat-Inv t1.windows t.columns t.workspaces staged.links s w space _
            (rw staged.same_window here) (rw staged.same_window up)
            (λ y. rw spaced (left t v s w here up y))
            (rw spaced (IsNodup-remove w (t.workspaces s).floating_windows (v.floating_nodup s)))
            refl refl);
    floating_now = ground (arith, staged.workspaces_now s);
    detached = ground arith;
    mode = ground (arith, m, staged.workspaces_now s);
    same_columns = cs ∙ staged.same_columns;
    unmarked = ground (arith, staged.unmarked);
  }

  run_detached :
      (i : ℕ) (t1 t2 : Tree)
      → index_of w (t.workspaces s).floating_windows ≡ some i
      → erase_at (t.workspaces s).floating_windows i ≡ (rest t v s w here up)
      → (if is_empty (rest t v s w here up)
          then back_to_tiling (put_floating t s (rest t v s w here up)) s
          else next_floating (put_floating t s (rest t v s w here up)) s)
        ≡ some t1
      → reconcile_output t1 w ≡ some t2
      → workspace_remove_floating t s w ≡ some (window_reconcile_detached t2 w)
  unfolding workspace_remove_floating
  run_detached i t1 t2 found erased step out = ground arith

  module _ (h : (t.windows w).fullscreen ≡ true → (t.windows w).output ≢ none) where
    finished :
        (t1 : Tree) (space : Workspace)
        → (if is_empty (rest t v s w here up)
            then back_to_tiling (put_floating t s (rest t v s w here up)) s
            else next_floating (put_floating t s (rest t v s w here up)) s)
          ≡ some t1
        → IsStaged t t1 s w space
        → space.floating_windows ≡ (rest t v s w here up)
        → space.focus_mode
          ≡ (if is_empty (rest t v s w here up) then tiling else (t.workspaces s).focus_mode)
        → (t' : Tree) × (workspace_remove_floating t s w ≡ some t') × IsUnfloated t t' s w
    finished t1 space step staged spaced m =
        elim (index_of-cases w (t.workspaces s).floating_windows) [
          | inl (_, _, out) ↦ absurd (ground (arith, v.back_floating s w here up))
          | inr (i, found, _, erased, _) ↦
              let (t2, e, ws, cs, ss, dd) = reconcile_output_lem t1 w (rw staged.same_window h) in
              (
                window_reconcile_detached t2 w,
                run_detached i t1 t2 found erased step e,
                left-IsUnfloated t1 t2 space staged spaced ws cs ss (dd s) m,
              )
        ]

    -- A window that leaves belongs nowhere, the others keep their order, and the workspace goes
    -- back to its columns if no other window floats in it; it is not marked for the next
    -- transaction. The output of a fullscreen window must not be NULL.
    pub workspace_remove_floating_lem :
        (t' : Tree) × (workspace_remove_floating t s w ≡ some t') × IsUnfloated t t' s w
    workspace_remove_floating_lem = elim (Bool-cases (is_empty (rest t v s w here up))) [
      | inl e ↦
          let (t1, step, staged) = to_tiling t v s w here up in
          finished t1 (tiling_space t v s w here up) (rw e step) staged refl (rw e refl)
      | inr e ↦
          let (t1, step, staged) = to_floating t v s w here up e in
          finished t1 (floating_space t v s w here up) (rw e step) staged refl (rw e refl)
    ]
