-- ===== src/Tree/Floating/Adding.antt =====
-- workspace_add_floating of workspace.c, in a well-formed tree.
use hayward.Common.{
  ℕ, ◌-◌, ◌≡◌, refl, inl, inr, List, [], ◌∷◌, ◌++◌, Option, none, some, true, false, arith, length,
  Bool-cases, get_elem?,
}
use hayward.ListT.Seq.{contains}
use hayward.ListT.Members.{get_elem?-contains, contains-snoc, IsNodup-snoc}
use hayward.Tree.State.{Tree, Window, Workspace, workspace_node, is_detached, update}
use hayward.Tree.Window.{can_float, floated, window_set_dirty}
use hayward.Tree.Inv.{IsWellFormed, Inv}
use hayward.Tree.Floats.{relabel-Inv, float-Inv, refloat-Inv}
use hayward.Tree.Column.{is_empty}
use hayward.Tree.Workspace.{workspace_set_dirty, workspace_get_active_floating_window}
use hayward.Tree.Floating.{put_floating, assign_output, reconcile_top, workspace_add_floating}

-- The window `w` floats in `s` on top of the others, and the columns are as they were.
pub record IsFloated (t t' : Tree) (s w : ℕ) : Type 0 where
  pub well_formed : IsWellFormed t'
  pub on_top : (t'.workspaces s).floating_windows ≡ (t.workspaces s).floating_windows ++ w ∷ []
  pub now_active : workspace_get_active_floating_window t' s ≡ some w
  pub back_link : (t'.windows w).workspace ≡ some s
  pub same_columns : t'.columns ≡ t.columns
  pub marked : t'.dirty (workspace_node s) ≡ true

pub get_elem?-last :
    (xs : List ℕ) (x : ℕ) → get_elem? (xs ++ x ∷ []) (length (xs ++ x ∷ []) - 1) ≡ some x
get_elem?-last [] x = ground arith
get_elem?-last (y ∷ []) x = ground arith
get_elem?-last (y ∷ z ∷ xs) x = ground (arith, get_elem?-last (z ∷ xs) x)

-- The active floating window is one of the floating windows.
pub active_floating-contains :
    (t : Tree) (s p : ℕ)
    → workspace_get_active_floating_window t s ≡ some p
    → contains p (t.workspaces s).floating_windows ≡ true
unfolding workspace_get_active_floating_window
active_floating-contains t s p h = elim (Bool-cases (is_empty (t.workspaces s).floating_windows)) [
  | inl e ↦ ground arith
  | inr e ↦
      get_elem?-contains (t.workspaces s).floating_windows
        (length (t.workspaces s).floating_windows - 1) p (ground arith)
]

-- The window on top is the active floating window.
pub active_floating-last :
    (t : Tree) (s w : ℕ) (ws : List ℕ)
    → (t.workspaces s).floating_windows ≡ ws ++ w ∷ []
    → workspace_get_active_floating_window t s ≡ some w
unfolding workspace_get_active_floating_window
active_floating-last t s w [] h = rw h refl
active_floating-last t s w (x ∷ xs) h = rw h (get_elem?-last (x ∷ xs) w)

module _ (t : Tree) (v : IsWellFormed t) (s w : ℕ) (d : is_detached (t.windows w) ≡ true)
    (alive : (t.windows w).dead ≡ false)
    (placed : can_float ((assign_output t w).windows w) ≡ true) where
  joined : Tree
  joined =
      floated (assign_output (put_floating t s ((t.workspaces s).floating_windows ++ w ∷ [])) w) w s

  not_floating : contains w (t.workspaces s).floating_windows ≡ false
  not_floating = elim (Bool-cases (contains w (t.workspaces s).floating_windows)) [
    | inl h ↦ ground (arith, v.floating_back s w h)
    | inr h ↦ h
  ]

  abbrev grown : Workspace
  grown = record (t.workspaces s) { floating_windows = (t.workspaces s).floating_windows ++ w ∷ [] }

  join-Inv :
      (first : Window)
      → Inv (update t.windows w first) t.columns t.workspaces
      → is_detached first ≡ true
      → (win : Window) → win.column ≡ none
      → win.workspace ≡ some s
      → win.dead ≡ false
      → can_float win ≡ true
      → Inv (update (update t.windows w first) w win) t.columns (update t.workspaces s grown)
  join-Inv first v1 d1 win wc ww al cf =
      float-Inv (update t.windows w first) t.columns t.workspaces v1 s w grown win (ground arith)
        (λ y. contains-snoc y w (t.workspaces s).floating_windows)
        (IsNodup-snoc w (t.workspaces s).floating_windows (v.floating_nodup s) not_floating) wc ww
        al cf

  abbrev labelled : Window
  labelled = record (t.windows w) {
    output_history = t.root.active_output ∷ [];
    output = t.root.active_output;
  }

  joined-IsWellFormed : IsWellFormed joined
  unfolding joined assign_output window_set_dirty
  joined-IsWellFormed = elim (Bool-cases (is_empty (t.windows w).output_history)) [
    | inl e ↦ rw e (
        join-Inv labelled
          (relabel-Inv t.windows t.columns t.workspaces v w labelled refl refl refl
            (λ s' h k c. ground (arith, d, h)))
          d _ refl refl (ground arith) refl)
    | inr e ↦ rw e (
        float-Inv t.windows t.columns t.workspaces v s w grown _ d
          (λ y. contains-snoc y w (t.workspaces s).floating_windows)
          (IsNodup-snoc w (t.workspaces s).floating_windows (v.floating_nodup s) not_floating) refl
          refl alive refl)
  ]

  abbrev topped : Option ℕ → Tree
  topped none = workspace_set_dirty joined s
  topped (some p) = workspace_set_dirty (floated joined p s) s

  topped-IsFloated :
      (prev : Option ℕ)
      → workspace_get_active_floating_window t s ≡ prev
      → IsFloated t (topped prev) s w
  unfolding workspace_set_dirty workspace_get_active_floating_window joined assign_output
      window_set_dirty
  topped-IsFloated none e = record {
    well_formed = joined-IsWellFormed;
    on_top = ground arith;
    now_active =
        active_floating-last (topped none) s w (t.workspaces s).floating_windows (ground arith);
    back_link = ground arith;
    same_columns = ground arith;
    marked = ground arith;
  }
  topped-IsFloated (some p) e =
      let held = v.floating_back s p (active_floating-contains t s p e) in
      record {
        well_formed =
            refloat-Inv joined.windows joined.columns joined.workspaces joined-IsWellFormed s p _
              (ground arith) (ground arith) refl refl refl refl;
        on_top = ground arith;
        now_active =
            active_floating-last (topped (some p)) s w (t.workspaces s).floating_windows
              (ground arith);
        back_link = ground arith;
        same_columns = ground arith;
        marked = ground arith;
      }

  run :
      (prev : Option ℕ)
      → workspace_get_active_floating_window t s ≡ prev
      → workspace_add_floating t s w ≡ some (topped prev)
  unfolding workspace_add_floating joined assign_output reconcile_top
  run none e = ground arith
  run (some p) e =
      let held = v.floating_back s p (active_floating-contains t s p e) in
      ground (arith, v.attached_alive p)

  -- A window that belongs nowhere floats on top of the others, and is the active one of them. It
  -- must have a size, or an output that is not NULL: its own, or the active one where it has no
  -- history.
  pub workspace_add_floating_lem :
      (t' : Tree) × (workspace_add_floating t s w ≡ some t') × IsFloated t t' s w
  workspace_add_floating_lem =
      let prev = workspace_get_active_floating_window t s in
      (topped prev, run prev refl, topped-IsFloated prev refl)
