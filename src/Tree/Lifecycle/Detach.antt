-- ===== src/Tree/Lifecycle/Detach.antt =====
-- window_detach of window.c, in a well-formed tree.
use hayward.Common.{ℕ, ◌≡◌, ◌≢◌, inl, inr, none, some, true, arith, Option-cases}
use hayward.Tree.State.{Tree, is_detached}
use hayward.Tree.Window.{window_set_dirty}
use hayward.Tree.Inv.{IsWellFormed}
use hayward.Tree.Column.Removal.{column_remove_child_lem}
use hayward.Tree.Floating.Leaving.{workspace_remove_floating_lem}
use hayward.Tree.Lifecycle.{leave, window_detach}

-- The window `w` belongs nowhere, and the tree is well formed.
pub record IsDetached (t : Tree) (w : ℕ) : Type 0 where
  pub well_formed : IsWellFormed t
  pub detached : is_detached (t.windows w) ≡ true

module _ (t : Tree) (v : IsWellFormed t) (w : ℕ) (s : ℕ) (here : (t.windows w).workspace ≡ some s)
    (h : (t.windows w).fullscreen ≡ true → (t.windows w).output ≢ none) where
  left_place : (t' : Tree) × (leave t w s (t.windows w).column ≡ some t') × IsDetached t' w
  unfolding leave
  left_place = elim (Option-cases (t.windows w).column) [
    | inl up ↦
        let (t', e, r) = workspace_remove_floating_lem t v s w here up h in
        (t', rw up e, record { well_formed = r.well_formed; detached = r.detached })
    | inr (c, up) ↦
        let (_, t', _, e, r) = column_remove_child_lem t v c w up in
        (t', rw up e, record { well_formed = r.well_formed; detached = r.detached })
  ]

  -- Detaching a window of a workspace takes it out of its column, or off the floating windows.
  -- The output of a fullscreen window must not be NULL.
  pub window_detach_lem : (t' : Tree) × (window_detach t w ≡ some t') × IsDetached t' w
  unfolding window_detach window_set_dirty
  window_detach_lem =
      let (t', e, r) = left_place in
      (
        window_set_dirty t' w,
        ground (arith, e),
        record { well_formed = r.well_formed; detached = r.detached },
      )
