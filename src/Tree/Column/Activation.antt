-- ===== src/Tree/Column/Activation.antt =====
-- column_set_active_child of column.c, in a well-formed tree.
use hayward.Common.{
  ℕ, ◌≡◌, refl, inl, inr, none, some, true, false, arith, ◌==◌, Bool-cases, Option-cases,
}
use hayward.ListT.Seq.{contains}
use hayward.Tree.State.{Tree, put_column}
use hayward.Tree.Window.{tiled, window_set_dirty}
use hayward.Tree.Inv.{IsWellFormed}
use hayward.Tree.Links.{relink-Inv, activate-Inv}
use hayward.Tree.Column.{column_set_dirty, column_set_active_child}

-- The child `w` of `c` is the active one; nothing has moved.
pub record IsActivated (t t' : Tree) (c w : ℕ) : Type 0 where
  pub well_formed : IsWellFormed t'
  pub active_now : (t'.columns c).active_child ≡ some w
  pub same_children : (b : ℕ) → (t'.columns b).children ≡ (t.columns b).children
  pub same_outputs : (b : ℕ) → (t'.columns b).output ≡ (t.columns b).output
  pub other_columns : (b : ℕ) → (c == b) ≡ false → t'.columns b ≡ t.columns b
  pub same_places :
      (y : ℕ)
      → ((t'.windows y).column ≡ (t.windows y).column)
        × ((t'.windows y).workspace ≡ (t.windows y).workspace)
  pub same_workspaces : t'.workspaces ≡ t.workspaces
  pub same_root : t'.root ≡ t.root

module _ (t : Tree) (v : IsWellFormed t) (c w : ℕ) (here : (t.windows w).column ≡ some c) where
  exchanged : ℕ → Tree
  exchanged p =
      column_set_dirty
        (tiled (tiled (put_column t c (record (t.columns c) { active_child = some w })) w c) p c) c

  exchanged-IsActivated :
      (p : ℕ) → (t.columns c).active_child ≡ some p → IsActivated t (exchanged p) c w
  unfolding exchanged column_set_dirty window_set_dirty
  exchanged-IsActivated p e =
      let p_here : (t.windows p).column ≡ some c =
        ground (arith, v.active_in c p, v.child_column c p) in
      record {
        well_formed =
            activate-Inv _ t.columns t.workspaces
              (relink-Inv _ t.columns t.workspaces
                (relink-Inv t.windows t.columns t.workspaces v c w _ here refl (ground arith) refl)
                c p _ (ground arith) refl (ground arith) refl)
              c w (record (t.columns c) { active_child = some w }) (ground arith) refl refl refl;
        active_now = ground arith;
        same_children = λ b. ground arith;
        same_outputs = λ b. ground arith;
        other_columns = λ b k. ground arith;
        same_places = λ y. (ground arith, ground (arith, v.child_workspace c y));
        same_workspaces = refl;
        same_root = refl;
      }

  no_active : (t.columns c).active_child ≡ none → ⊥
  unfolding contains
  no_active e = ground (arith, v.active_some c e, v.column_child c w here)

  unchanged : (p : ℕ) → (t.columns c).active_child ≡ some p → (p == w) ≡ true → IsActivated t t c w
  unchanged p e same = record {
    well_formed = v;
    active_now = ground arith;
    same_children = λ b. refl;
    same_outputs = λ b. refl;
    other_columns = λ b k. refl;
    same_places = λ y. (refl, refl);
    same_workspaces = refl;
    same_root = refl;
  }

  run_same :
      (p : ℕ)
      → (t.columns c).active_child ≡ some p
      → (p == w) ≡ true
      → column_set_active_child t c w ≡ some t
  unfolding column_set_active_child
  run_same p e same = ground arith

  run_exchange :
      (p : ℕ)
      → (t.columns c).active_child ≡ some p
      → (p == w) ≡ false
      → column_set_active_child t c w ≡ some (exchanged p)
  unfolding column_set_active_child exchanged
  run_exchange p e other =
      ground (arith, v.attached_alive w, v.attached_alive p, v.active_in c p, v.child_column c p)

  -- A child is made the active one, or is it already.
  pub column_set_active_child_lem :
      (t' : Tree) × (column_set_active_child t c w ≡ some t') × IsActivated t t' c w
  column_set_active_child_lem = elim (Option-cases (t.columns c).active_child) [
    | inl e ↦ absurd (no_active e)
    | inr (p, e) ↦ elim (Bool-cases (p == w)) [
      | inl same ↦ (t, run_same p e same, unchanged p e same)
      | inr other ↦ (exchanged p, run_exchange p e other, exchanged-IsActivated p e)
    ]
  ]
