-- ===== src/Tree/Root/Shown.antt =====
-- root_set_focused_window of root.c, in a well-formed tree.
use hayward.Common.{
  ℕ, ◌≡◌, ◌≢◌, refl, ◌∙◌, List, [], ◌∷◌, Option, none, some, true, false, arith, ◌==?◌, Bool-cases,
  inl, inr,
}
use hayward.Tree.State.{Tree, put_root}
use hayward.Tree.Inv.{IsWellFormed}
use hayward.Tree.Workspace.{
  workspace_set_dirty, output_reconcile, workspace_get_active_output, workspace_get_active_window,
}
use hayward.Tree.Focus.{workspace_set_active_window}
use hayward.Tree.Focus.Branches.{HasSameFocus}
use hayward.Tree.Focus.Choice.{workspace_set_active_window_lem}
use hayward.Tree.Lifecycle.{workspace_consider_destroy, root_set_dirty}
use hayward.Tree.Lifecycle.Kept.{IsKept, kept-IsWellFormed, IsKept-after}
use hayward.Tree.Root.{
  reconcile_outputs, leave_workspace, follow_output, root_set_active_workspace,
  root_get_focused_window, root_set_focused_layer, root_set_focused_surface,
  root_set_focused_window,
}

-- The forest is kept, and so is the focus.
record IsSteady (t t' : Tree) : Type 0 where
  kept : IsKept t t'
  focus : HasSameFocus t.root t'.root

IsSteady-refl : (t : Tree) → IsSteady t t
IsSteady-refl t = record {
  kept = record { same_windows = refl; same_columns = refl; same_floating = λ k. refl };
  focus = (refl, refl, refl);
}

IsSteady-after : {t u w : Tree} → IsSteady t u → IsSteady u w → IsSteady t w
IsSteady-after k l = record {
  kept = IsKept-after k.kept l.kept;
  focus = (l.focus.0 ∙ k.focus.0, l.focus.1 ∙ k.focus.1, l.focus.2 ∙ k.focus.2);
}

reconcile_outputs-IsSteady : (t : Tree) (os : List ℕ) → IsSteady t (reconcile_outputs t os)
unfolding reconcile_outputs output_reconcile
reconcile_outputs-IsSteady t [] = IsSteady-refl t
reconcile_outputs-IsSteady t (o ∷ os) =
    IsSteady-after
      (record {
        kept = record { same_windows = refl; same_columns = refl; same_floating = λ k. refl };
        focus = (refl, refl, refl);
      })
      (reconcile_outputs-IsSteady (output_reconcile t o) os)

leave_workspace-IsSteady : (t : Tree) (o : Option ℕ) → IsSteady t (leave_workspace t o)
unfolding leave_workspace workspace_set_dirty workspace_consider_destroy root_set_dirty
leave_workspace-IsSteady t none = IsSteady-refl t
leave_workspace-IsSteady t (some s) = record {
  kept = record {
    same_windows = ground arith;
    same_columns = ground arith;
    same_floating = λ k. ground arith;
  };
  focus = (ground arith, ground arith, ground arith);
}

follow_output-IsSteady : (t : Tree) (o : Option ℕ) → IsSteady t (follow_output t o)
unfolding follow_output
follow_output-IsSteady t none = IsSteady-refl t
follow_output-IsSteady t (some o) = record {
  kept = record { same_windows = refl; same_columns = refl; same_floating = λ k. refl };
  focus = (refl, refl, refl);
}

-- The workspace that is shown, and what does not change when it is.
record IsShown (t t' : Tree) (s : ℕ) : Type 0 where
  kept : IsKept t t'
  shown : t'.root.active_workspace ≡ some s
  same_layer : t'.root.active_layer ≡ t.root.active_layer
  same_unmanaged : t'.root.active_unmanaged ≡ t.root.active_unmanaged

set-IsShown :
    (t : Tree) (s : ℕ)
    → (some s ==? t.root.active_workspace) ≡ false
    → IsShown t (root_set_active_workspace t s) s
unfolding root_set_active_workspace workspace_set_dirty root_set_dirty
set-IsShown t s other =
    let shown = put_root t (record t.root { active_workspace = some s }) in
    let left = leave_workspace shown t.root.active_workspace in
    let marked = workspace_set_dirty left s in
    let followed = follow_output marked (workspace_get_active_output marked s) in
    let first = leave_workspace-IsSteady shown t.root.active_workspace in
    let second = follow_output-IsSteady marked (workspace_get_active_output marked s) in
    let third = reconcile_outputs-IsSteady followed followed.root.outputs in
    let mark : IsSteady left marked = record {
      kept = record { same_windows = refl; same_columns = refl; same_floating = λ k. refl };
      focus = (refl, refl, refl);
    } in
    let all = IsSteady-after first (IsSteady-after mark (IsSteady-after second third)) in
    rw (other, root_set_active_workspace)
      (record {
        kept = record {
          same_windows = all.kept.same_windows;
          same_columns = all.kept.same_columns;
          same_floating = all.kept.same_floating;
        };
        shown = all.focus.0;
        same_layer = all.focus.1;
        same_unmanaged = all.focus.2;
      })

same_workspace : (s : ℕ) (o : Option ℕ) → (some s ==? o) ≡ true → o ≡ some s
same_workspace s none h = ground arith
same_workspace s (some r) h = ground arith

root_set_active_workspace-IsShown : (t : Tree) (s : ℕ) → IsShown t (root_set_active_workspace t s) s
unfolding root_set_active_workspace
root_set_active_workspace-IsShown t s = elim (Bool-cases (some s ==? t.root.active_workspace)) [
  | inr other ↦ set-IsShown t s other
  | inl same ↦
      rw (same, root_set_active_workspace)
        (record {
          kept = record { same_windows = refl; same_columns = refl; same_floating = λ k. refl };
          shown = same_workspace s t.root.active_workspace same;
          same_layer = refl;
          same_unmanaged = refl;
        })
]

-- The window `w` has the focus: nothing takes it from the active window of the workspace shown.
pub record HasFocus (t : Tree) (s w : ℕ) : Type 0 where
  pub well_formed : IsWellFormed t
  pub shown : t.root.active_workspace ≡ some s
  pub focused : root_get_focused_window t ≡ some (some w)

module _ (t : Tree) (v : IsWellFormed t) (s w : ℕ) (here : (t.windows w).workspace ≡ some s) where
  abbrev cleared : Tree
  cleared = put_root t (record t.root { active_layer = none; active_unmanaged = none })

  cleared_run : root_set_focused_surface (root_set_focused_layer t none) none ≡ some cleared
  unfolding root_set_focused_surface root_set_focused_layer
  cleared_run = refl

  focus_run :
      (t' : Tree)
      → workspace_set_active_window (root_set_active_workspace cleared s) s (some w) ≡ some t'
      → root_set_focused_window t w ≡ some t'
  unfolding root_set_focused_window
  focus_run t' e = ground (arith, cleared_run, e)

  focused_window :
      (t' : Tree)
      → t'.root.active_workspace ≡ some s
      → t'.root.active_layer ≡ none
      → t'.root.active_unmanaged ≡ none
      → workspace_get_active_window t' s ≡ some w
      → root_get_focused_window t' ≡ some (some w)
  unfolding root_get_focused_window
  focused_window t' shown layer unmanaged active = ground arith

  -- A window of a workspace gets the focus, whatever had it: its workspace is shown, no layer and
  -- no unmanaged surface keeps the focus from it, and it is the active window there. If it is in
  -- a column, that must be on an output.
  pub root_set_focused_window_lem :
      ((c : ℕ) → (t.windows w).column ≡ some c → (t.columns c).output ≢ none)
      → (t' : Tree) × (root_set_focused_window t w ≡ some t') × HasFocus t' s w
  root_set_focused_window_lem h =
      let u = root_set_active_workspace cleared s in
      let up = root_set_active_workspace-IsShown cleared s in
      let (t', e, f) =
        workspace_set_active_window_lem u (kept-IsWellFormed up.kept v) s w
          (rw up.kept.same_windows here) (rw (up.kept.same_windows, up.kept.same_columns) h) in
      (
        t',
        focus_run t' e,
        record {
          well_formed = f.well_formed;
          shown = f.same_focus.0 ∙ up.shown;
          focused =
              focused_window t' (f.same_focus.0 ∙ up.shown) (f.same_focus.1 ∙ up.same_layer)
                (f.same_focus.2 ∙ up.same_unmanaged) f.active_now;
        },
      )
