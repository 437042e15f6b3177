-- ===== src/Tree/Focus/Choice.antt =====
-- workspace_set_active_window of workspace.c, in a well-formed tree.
use hayward.Common.{
  ℕ, ◌≡◌, ◌≢◌, refl, sym, ◌∙◌, ◌⊎◌, inl, inr, Option, none, some, Bool, true, false, arith, ◌==?◌,
  Bool-cases, Option-cases,
}
use hayward.Tree.State.{Tree, Workspace, tiling, floating}
use hayward.Tree.Window.{floated, tiled, window_set_dirty, window_is_floating}
use hayward.Tree.Inv.{IsWellFormed}
use hayward.Tree.Floats.{relabel-Inv}
use hayward.Tree.Workspace.{
  workspace_set_dirty, workspace_get_active_window, workspace_get_active_tiling_window,
  workspace_get_active_floating_window,
}
use hayward.Tree.Floating.Adding.{active_floating-contains}
use hayward.Tree.Focus.{focus_window, reconcile_previous, workspace_set_active_window}
use hayward.Tree.Focus.Branches.{IsFocused, raised_lem, chosen_lem}

-- Only the windows' labels differ.
record IsRelabelled (t t' : Tree) : Type 0 where
  links : IsWellFormed t'
  same_places :
      (y : ℕ)
      → ((t'.windows y).column ≡ (t.windows y).column)
        × ((t'.windows y).workspace ≡ (t.windows y).workspace)
  same_columns : t'.columns ≡ t.columns
  same_workspaces : t'.workspaces ≡ t.workspaces
  same_root : t'.root ≡ t.root

abbrev IsInside : Tree → (workspace window : ℕ) → Type 0
IsInside t s p = ((t.windows p).workspace ≡ some s) ⊎ (a : ℕ) × ((t.windows p).column ≡ some a)

previous_lem :
    (u : Tree) (s p : ℕ)
    → IsWellFormed u
    → IsInside u s p
    → (u' : Tree) × (reconcile_previous u s (some p) ≡ some u') × IsRelabelled u u'
unfolding reconcile_previous window_is_floating window_set_dirty
previous_lem u s p v at = elim (Option-cases (u.windows p).column) [
  | inl up ↦
      let here : (u.windows p).workspace ≡ some s = elim at [
        | inl h ↦ h
        | inr (a, h) ↦ absurd (cc)
      ] in
      (
        floated u p s,
        ground (arith, v.attached_alive p, v.back_floating s p here up, v.floating_back s p),
        record {
          links =
              relabel-Inv u.windows u.columns u.workspaces v p _ (sym up) (sym here) refl
                (λ s' h k c. refl);
          same_places = λ y. (ground arith, ground arith);
          same_columns = refl;
          same_workspaces = refl;
          same_root = refl;
        },
      )
  | inr (a, here) ↦ (
    tiled u p a,
    ground (arith, v.attached_alive p),
    record {
      links =
          relabel-Inv u.windows u.columns u.workspaces v p _ (sym here)
            (sym (v.child_workspace a p here)) refl (λ s' h k c. ground (arith, here, k));
      same_places = λ y. (ground arith, ground (arith, v.child_workspace a p));
      same_columns = refl;
      same_workspaces = refl;
      same_root = refl;
    },
  )
]

abbrev in_tiling_mode : Workspace → Bool
in_tiling_mode space = elim space.focus_mode [ tiling ↦ true | floating ↦ false ]

-- The active window of a workspace is placed.
active-IsInside :
    (t : Tree) (s p : ℕ)
    → IsWellFormed t
    → workspace_get_active_window t s ≡ some p
    → IsInside t s p
unfolding workspace_get_active_window workspace_get_active_tiling_window
active-IsInside t s p v h = elim (Bool-cases (in_tiling_mode (t.workspaces s))) [
  | inr m ↦ inl (v.floating_back s p (active_floating-contains t s p (ground arith))).0
  | inl m ↦ elim (Option-cases (t.workspaces s).active_column) [
    | inl n ↦ absurd (ground arith)
    | inr (a, e) ↦ inr (a, v.child_column a p (v.active_in a p (ground arith)))
  ]
]

same_pointer : (w : ℕ) (o : Option ℕ) → (some w ==? o) ≡ true → o ≡ some w
same_pointer w none h = ground arith
same_pointer w (some p) h = ground arith

module _ (t : Tree) (v : IsWellFormed t) (s w : ℕ) (here : (t.windows w).workspace ≡ some s) where
  module _ (h : (c : ℕ) → (t.windows w).column ≡ some c → (t.columns c).output ≢ none) where
    focused_lem : (u : Tree) × (focus_window t s (some w) ≡ some u) × IsFocused t u s w
    unfolding focus_window window_is_floating
    focused_lem = elim (Option-cases (t.windows w).column) [
      | inl up ↦ let (u, e, f) = raised_lem t v s w here up in (u, ground (arith, e), f)
      | inr (c, up) ↦
          let (u, e, f) = chosen_lem t v s w here c up (h c up) in (u, ground (arith, e), f)
    ]

    previous_told :
        (u : Tree) (prev : Option ℕ)
        → IsFocused t u s w
        → workspace_get_active_window t s ≡ prev
        → (u' : Tree) × (reconcile_previous u s prev ≡ some u')
          × IsFocused t (workspace_set_dirty u' s) s w
    unfolding reconcile_previous workspace_set_dirty workspace_get_active_window
        workspace_get_active_tiling_window workspace_get_active_floating_window
    previous_told u none f e = (
      u,
      refl,
      record {
        well_formed = f.well_formed;
        active_now = f.active_now;
        same_places = f.same_places;
        same_focus = f.same_focus;
      },
    )
    previous_told u (some p) f e =
        let at : IsInside u s p = elim (active-IsInside t s p v e) [
          | inl k ↦ inl ((f.same_places p).1 ∙ k)
          | inr (a, k) ↦ inr (a, (f.same_places p).0 ∙ k)
        ] in
        let (u', run, r) = previous_lem u s p f.well_formed at in
        (
          u',
          run,
          record {
            well_formed = r.links;
            active_now = rw (r.same_columns, r.same_workspaces) f.active_now;
            same_focus = rw r.same_root f.same_focus;
            same_places = λ y. (
              (r.same_places y).0 ∙ (f.same_places y).0,
              (r.same_places y).1 ∙ (f.same_places y).1,
            );
          },
        )

    -- A window of the workspace becomes its active window, whichever window was before, in a
    -- column or floating. If it is in a column, that must be on an output.
    pub workspace_set_active_window_lem :
        (t' : Tree) × (workspace_set_active_window t s (some w) ≡ some t') × IsFocused t t' s w
    unfolding workspace_set_active_window
    workspace_set_active_window_lem =
        let prev = workspace_get_active_window t s in
        elim (Bool-cases (some w ==? prev)) [
          | inl same ↦ (
            t,
            ground arith,
            record {
              well_formed = v;
              active_now = same_pointer w prev same;
              same_places = λ y. (refl, refl);
              same_focus = (refl, refl, refl);
            },
          )
          | inr other ↦
              let (u, e, f) = focused_lem in
              let (u', run, f') = previous_told u prev f refl in
              (workspace_set_dirty u' s, rw (other, e, run) refl, f')
        ]
