-- ===== src/Tree/Floating/Staging.antt =====
-- workspace_remove_floating of workspace.c, up to the point where the next active window has been
-- told and the one that leaves has not.
use hayward.Common.{
  ℕ, ◌-◌, ◌≡◌, refl, sym, inl, inr, List, none, some, true, false, arith, length, ◌==◌,
  if◌then◌else◌, Option-cases, get_elem?,
}
use hayward.ListT.Seq.{remove, contains}
use hayward.ListT.Members.{get_elem?-none, contains-remove}
use hayward.Tree.State.{Tree, Workspace, tiling, workspace_node, put_workspace, update}
use hayward.Tree.Window.{floated, tiled, window_set_dirty}
use hayward.Tree.Inv.{IsWellFormed, Inv}
use hayward.Tree.Floats.{relabel-Inv}
use hayward.Tree.Column.{is_empty}
use hayward.Tree.Workspace.{
  workspace_get_active_floating_window, workspace_get_active_tiling_window,
}
use hayward.Tree.Floating.{put_floating, back_to_tiling, next_floating}
use hayward.Tree.Floating.Adding.{active_floating-contains}

-- The tree when `w` is off the list and the next active window has been told, but `w` has not.
pub record IsStaged (t t1 : Tree) (s w : ℕ) (space : Workspace) : Type 0 where
  pub links : Inv t1.windows t.columns t.workspaces
  pub same_window : t1.windows w ≡ t.windows w
  pub same_columns : t1.columns ≡ t.columns
  pub workspaces_now : (k : ℕ) → t1.workspaces k ≡ update t.workspaces s space k
  pub unmarked : t1.dirty (workspace_node s) ≡ t.dirty (workspace_node s)

module _ (t : Tree) (v : IsWellFormed t) (s w : ℕ) (here : (t.windows w).workspace ≡ some s)
    (up : (t.windows w).column ≡ none) where
  abbrev pub rest : List ℕ
  rest = remove w (t.workspaces s).floating_windows

  pub left :
      (y : ℕ)
      → contains y rest ≡ (if w == y then false else contains y (t.workspaces s).floating_windows)
  left y = contains-remove y w (t.workspaces s).floating_windows (v.floating_nodup s)

  abbrev pub tiling_space : Workspace
  tiling_space = record (t.workspaces s) { floating_windows = rest; focus_mode = tiling }

  abbrev pub floating_space : Workspace
  floating_space = record (t.workspaces s) { floating_windows = rest }

  abbrev in_tiling : Tree
  in_tiling =
      put_workspace (put_floating t s rest) s
        (record ((put_floating t s rest).workspaces s) { focus_mode = tiling })

  in_tiling-IsStaged : IsStaged t in_tiling s w tiling_space
  in_tiling-IsStaged = record {
    links = v;
    same_window = refl;
    same_columns = refl;
    workspaces_now = λ k. ground arith;
    unmarked = refl;
  }

  tiled-IsStaged :
      (a p : ℕ)
      → (t.columns a).active_child ≡ some p
      → IsStaged t (tiled in_tiling p a) s w tiling_space
  unfolding window_set_dirty
  tiled-IsStaged a p e =
      let p_here : (t.windows p).column ≡ some a =
        ground (arith, v.active_in a p, v.child_column a p) in
      record {
        links =
            relabel-Inv t.windows t.columns t.workspaces v p _ (sym p_here)
              (sym (v.child_workspace a p p_here)) refl (λ s' h k c. ground (arith, p_here, k));
        same_window = ground arith;
        same_columns = refl;
        workspaces_now = λ k. ground arith;
        unmarked = ground arith;
      }

  run_tiling :
      (a p : ℕ)
      → (t.workspaces s).active_column ≡ some a
      → (t.columns a).active_child ≡ some p
      → back_to_tiling (put_floating t s rest) s ≡ some (tiled in_tiling p a)
  unfolding back_to_tiling workspace_get_active_tiling_window
  run_tiling a p ea ep =
      let p_here : (t.windows p).column ≡ some a =
        ground (arith, v.active_in a p, v.child_column a p) in
      ground (arith, v.attached_alive p)

  run_none :
      workspace_get_active_tiling_window t s ≡ none
      → back_to_tiling (put_floating t s rest) s ≡ some in_tiling
  unfolding back_to_tiling workspace_get_active_tiling_window
  run_none e = ground arith

  pub to_tiling :
      (t1 : Tree) × (back_to_tiling (put_floating t s rest) s ≡ some t1)
      × IsStaged t t1 s w tiling_space
  unfolding workspace_get_active_tiling_window
  to_tiling = elim (Option-cases (t.workspaces s).active_column) [
    | inl none_active ↦ (in_tiling, run_none (ground arith), in_tiling-IsStaged)
    | inr (a, ea) ↦ elim (Option-cases (t.columns a).active_child) [
      | inl no_child ↦ (in_tiling, run_none (ground arith), in_tiling-IsStaged)
      | inr (p, ep) ↦ (tiled in_tiling p a, run_tiling a p ea ep, tiled-IsStaged a p ep)
    ]
  ]

  floated-IsStaged :
      (p : ℕ)
      → contains p rest ≡ true
      → IsStaged t (floated (put_floating t s rest) p s) s w floating_space
  unfolding window_set_dirty
  floated-IsStaged p held =
      let links = v.floating_back s p (ground (arith, left p)) in
      record {
        links =
            relabel-Inv t.windows t.columns t.workspaces v p _ (sym links.1) (sym links.0) refl
              (λ s' h k c. refl);
        same_window = ground (arith, left p);
        same_columns = refl;
        workspaces_now = λ k. refl;
        unmarked = ground arith;
      }

  some_floating :
      is_empty rest ≡ false
      → (p : ℕ) × (workspace_get_active_floating_window (put_floating t s rest) s ≡ some p)
  unfolding workspace_get_active_floating_window
  some_floating e = elim (Option-cases (get_elem? rest (length rest - 1))) [
    | inl n ↦ absurd (ground (arith, get_elem?-none rest (length rest - 1) n))
    | inr (p, found) ↦ (p, ground arith)
  ]

  run_floating :
      (p : ℕ)
      → workspace_get_active_floating_window (put_floating t s rest) s ≡ some p
      → contains p rest ≡ true
      → next_floating (put_floating t s rest) s ≡ some (floated (put_floating t s rest) p s)
  unfolding next_floating
  run_floating p e held =
      let links = v.floating_back s p (ground (arith, left p)) in ground (arith, v.attached_alive p)

  pub to_floating :
      is_empty rest ≡ false
      → (t1 : Tree) × (next_floating (put_floating t s rest) s ≡ some t1)
        × IsStaged t t1 s w floating_space
  to_floating e =
      let (p, top) = some_floating e in
      let held : contains p rest ≡ true =
        ground (arith, active_floating-contains (put_floating t s rest) s p top) in
      (floated (put_floating t s rest) p s, run_floating p top held, floated-IsStaged p held)
