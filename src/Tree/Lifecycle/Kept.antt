-- ===== src/Tree/Lifecycle/Kept.antt =====
-- What the ends of columns and workspaces leave alone: the windows, the columns and the floating
-- windows.
use hayward.Common.{
  ℕ, ◌≡◌, refl, ◌∙◌, Option, none, some, arith, ◌==?◌, if◌then◌else◌, Bool-cases, inl, inr,
}
use hayward.Tree.State.{Tree, put_workspace}
use hayward.Tree.Inv.{IsWellFormed}
use hayward.Tree.Floats.{same_floating-Inv}
use hayward.Tree.Workspace.{workspace_set_dirty, on_output}
use hayward.Tree.Column.{column_set_dirty}
use hayward.Tree.Lifecycle.{
  root_set_dirty, workspace_consider_destroy, replace_active, mark_column, next_active,
}

pub record IsKept (t t' : Tree) : Type 0 where
  pub same_windows : t'.windows ≡ t.windows
  pub same_columns : t'.columns ≡ t.columns
  pub same_floating :
      (k : ℕ) → (t'.workspaces k).floating_windows ≡ (t.workspaces k).floating_windows

pub kept-IsWellFormed : {t t' : Tree} → IsKept t t' → IsWellFormed t → IsWellFormed t'
kept-IsWellFormed {t} {t'} k v =
    rw (k.same_windows, k.same_columns)
      (same_floating-Inv t.windows t.columns t.workspaces t'.workspaces v k.same_floating)

pub IsKept-after : {t u w : Tree} → IsKept t u → IsKept u w → IsKept t w
IsKept-after k l = record {
  same_windows = l.same_windows ∙ k.same_windows;
  same_columns = l.same_columns ∙ k.same_columns;
  same_floating = λ s. l.same_floating s ∙ k.same_floating s;
}

pub workspace_consider_destroy-IsKept :
    (t : Tree) (s : ℕ) → IsKept t (workspace_consider_destroy t s)
unfolding workspace_consider_destroy workspace_set_dirty root_set_dirty
workspace_consider_destroy-IsKept t s = record {
  same_windows = ground arith;
  same_columns = ground arith;
  same_floating = λ k. ground arith;
}

mark_column-IsKept : (t : Tree) (o : Option ℕ) → IsKept t (mark_column t o)
unfolding column_set_dirty
mark_column-IsKept t none = record {
  same_windows = refl;
  same_columns = refl;
  same_floating = λ k. refl;
}
mark_column-IsKept t (some c) = record {
  same_windows = refl;
  same_columns = refl;
  same_floating = λ k. refl;
}

mark_column_lem : (t : Tree) (o : Option ℕ) → (mark_column t o).workspaces ≡ t.workspaces
unfolding column_set_dirty
mark_column_lem t none = refl
mark_column_lem t (some c) = refl

pub replace_active-IsKept : (t : Tree) (s c index : ℕ) → IsKept t (replace_active t s c index)
unfolding replace_active
replace_active-IsKept t s c index =
    let next =
      next_active (on_output t (t.columns c).output) index 0 none (t.workspaces s).columns in
    let u = put_workspace t s (record (t.workspaces s) { active_column = next }) in
    let kept : IsKept t u = record {
      same_windows = refl;
      same_columns = refl;
      same_floating = λ k. ground arith;
    } in
    elim (Bool-cases ((t.workspaces s).active_column ==? some c)) [
      | inr other ↦
          rw (other, replace_active)
            (record { same_windows = refl; same_columns = refl; same_floating = λ k. refl })
      | inl active ↦ rw (active, replace_active) (IsKept-after kept (mark_column-IsKept u next))
    ]

-- The columns that are left and the active one among them.
pub replace_active_lem :
    (t : Tree) (s c index : ℕ)
    → (((replace_active t s c index).workspaces s).columns ≡ (t.workspaces s).columns)
      × (((replace_active t s c index).workspaces s).active_column ≡ (
          if (t.workspaces s).active_column ==? some c
          then next_active (on_output t (t.columns c).output) index 0 none (t.workspaces s).columns
          else (t.workspaces s).active_column))
unfolding replace_active
replace_active_lem t s c index =
    let next =
      next_active (on_output t (t.columns c).output) index 0 none (t.workspaces s).columns in
    let u = put_workspace t s (record (t.workspaces s) { active_column = next }) in
    let same = mark_column_lem u next in (ground (arith, same), ground (arith, same))

pub workspace_consider_destroy_same :
    (t : Tree) (s k : ℕ)
    → (((workspace_consider_destroy t s).workspaces k).columns ≡ (t.workspaces k).columns)
      × (((workspace_consider_destroy t s).workspaces k).active_column
          ≡ (t.workspaces k).active_column)
unfolding workspace_consider_destroy workspace_set_dirty root_set_dirty
workspace_consider_destroy_same t s k = (ground arith, ground arith)
