-- ===== src/Tree/Focus/Branches.antt =====
-- The branches of workspace_set_active_window of workspace.c: a floating window is raised, a child
-- of a column becomes its active one.
use hayward.Common.{
  ap, ◌∙◌, ℕ, ◌≡◌, ◌≢◌, refl, sym, inl, inr, List, [], ◌∷◌, ◌++◌, none, some, arith, ◌==?◌,
  Bool-cases, Option-cases,
}
use hayward.ListT.Seq.{index_of, erase_at, remove, contains}
use hayward.ListT.Positions.{index_of-cases}
use hayward.ListT.Members.{IsNodup, contains-snoc, contains-remove, IsNodup-remove, IsNodup-snoc}
use hayward.Tree.State.{Root, Tree, Workspace, tiling, floating, put_workspace, put_root}
use hayward.Tree.Window.{floated, window_set_dirty}
use hayward.Tree.Inv.{IsWellFormed}
use hayward.Tree.Floats.{relabel-Inv, reorder-Inv}
use hayward.Tree.Column.{column_set_active_child}
use hayward.Tree.Column.Activation.{column_set_active_child_lem}
use hayward.Tree.Workspace.{workspace_get_active_window, workspace_get_active_tiling_window}
use hayward.Tree.Floating.Adding.{active_floating-last}
use hayward.Tree.Focus.{root_set_active_output, focus_floating, focus_tiling}

-- What has the focus apart from the windows of a workspace.
abbrev pub HasSameFocus : Root → Root → Type 0
HasSameFocus r r' =
    (r'.active_workspace ≡ r.active_workspace)
    × (r'.active_layer ≡ r.active_layer)
    × (r'.active_unmanaged ≡ r.active_unmanaged)

same_focus_after : (q r r' : Root) → r ≡ q → HasSameFocus r r' → HasSameFocus q r'
same_focus_after q r r' e h = (
  h.0 ∙ ap (λ x. x.active_workspace) e,
  h.1 ∙ ap (λ x. x.active_layer) e,
  h.2 ∙ ap (λ x. x.active_unmanaged) e,
)

-- The window `w` is the active one of `s`; no window has moved.
pub record IsFocused (t t' : Tree) (s w : ℕ) : Type 0 where
  pub well_formed : IsWellFormed t'
  pub active_now : workspace_get_active_window t' s ≡ some w
  pub same_places :
      (y : ℕ)
      → ((t'.windows y).column ≡ (t.windows y).column)
        × ((t'.windows y).workspace ≡ (t.windows y).workspace)
  pub same_focus : HasSameFocus t.root t'.root

module _ (t : Tree) (v : IsWellFormed t) (s w : ℕ) (here : (t.windows w).workspace ≡ some s) where
  abbrev raised : List ℕ
  raised = remove w (t.workspaces s).floating_windows ++ w ∷ []

  abbrev raised_space : Workspace
  raised_space = record (t.workspaces s) { floating_windows = raised; focus_mode = floating }

  raised_run :
      (i : ℕ)
      → (t.windows w).column ≡ none
      → index_of w (t.workspaces s).floating_windows ≡ some i
      → erase_at (t.workspaces s).floating_windows i ≡ remove w (t.workspaces s).floating_windows
      → focus_floating t s w ≡ some (floated (put_workspace t s raised_space) w s)
  unfolding focus_floating
  raised_run i up found erased =
      ground (arith, v.attached_alive w, v.back_floating s w here up, v.floating_back s w)

  raised_members :
      (t.windows w).column ≡ none
      → (y : ℕ) → contains y raised ≡ contains y (t.workspaces s).floating_windows
  raised_members up y = ground (
    arith,
    v.back_floating s w here up,
    contains-snoc y w (remove w (t.workspaces s).floating_windows),
    contains-remove y w (t.workspaces s).floating_windows (v.floating_nodup s),
  )

  raised-IsNodup : IsNodup raised
  raised-IsNodup =
      IsNodup-snoc w (remove w (t.workspaces s).floating_windows)
        (IsNodup-remove w (t.workspaces s).floating_windows (v.floating_nodup s))
        (ground (arith, contains-remove w w (t.workspaces s).floating_windows (v.floating_nodup s)))

  pub raised_lem :
      (t.windows w).column ≡ none → (u : Tree) × (focus_floating t s w ≡ some u) × IsFocused t u s w
  unfolding workspace_get_active_window window_set_dirty
  raised_lem up = elim (index_of-cases w (t.workspaces s).floating_windows) [
    | inl (_, _, out) ↦ absurd (ground (arith, v.back_floating s w here up))
    | inr (i, found, _, erased, _) ↦
        let u = floated (put_workspace t s raised_space) w s in
        (
          u,
          raised_run i up found erased,
          record {
            well_formed =
                relabel-Inv t.windows t.columns _
                  (reorder-Inv t.windows t.columns t.workspaces v s w raised_space
                    (raised_members up) raised-IsNodup)
                  w _ (sym up) (sym here) refl (λ s' h k c. refl);
            active_now = ground (
              arith,
              active_floating-last u s w (remove w (t.workspaces s).floating_windows)
                  (ground arith),
            );
            same_places = λ y. (ground arith, ground arith);
            same_focus = (refl, refl, refl);
          },
        )
  ]

  chosen_run :
      (c : ℕ) (t1 : Tree)
      → (t.windows w).column ≡ some c
      → column_set_active_child t c w ≡ some t1
      → (t1.columns c).output ≢ none
      → (root : Root) × (focus_tiling t s w
          ≡ some (
              put_root
                (put_workspace t1 s
                  (record (t1.workspaces s) { active_column = some c; focus_mode = tiling }))
                root))
        × HasSameFocus t1.root root
  unfolding focus_tiling root_set_active_output
  chosen_run c t1 up e out = elim (Option-cases (t1.columns c).output) [
    | inl n ↦ absurd (out n)
    | inr (o, eo) ↦ elim (Bool-cases (t1.root.active_workspace ==? some s)) [
      | inl shown ↦ (
        record t1.root { active_output = (t1.columns c).output },
        ground (arith, v.child_workspace c w up),
        (refl, refl, refl),
      )
      | inr hidden ↦ (t1.root, ground (arith, v.child_workspace c w up), (refl, refl, refl))
    ]
  ]

  pub chosen_lem :
      (c : ℕ)
      → (t.windows w).column ≡ some c
      → (t.columns c).output ≢ none
      → (u : Tree) × (focus_tiling t s w ≡ some u) × IsFocused t u s w
  unfolding workspace_get_active_window workspace_get_active_tiling_window
  chosen_lem c up out =
      let (t1, e, act) = column_set_active_child_lem t v c w up in
      let (root, run, same) = chosen_run c t1 up e (rw (act.same_outputs c) out) in
      (
        _,
        run,
        record {
          well_formed =
              reorder-Inv t1.windows t1.columns t1.workspaces act.well_formed s w _ (λ y. refl)
                (act.well_formed.floating_nodup s);
          active_now = ground (arith, act.active_now);
          same_places = act.same_places;
          same_focus = same_focus_after t.root t1.root root act.same_root same;
        },
      )
