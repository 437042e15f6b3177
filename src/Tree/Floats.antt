-- ===== src/Tree/Floats.antt =====
-- The changes to the links that the operations on floating windows are made of, and that each keeps
-- the tree well formed: a window that floats, that no longer floats, that is told again where it
-- is, and floating windows in another order.
use hayward.Common.{ℕ, ◌≡◌, none, some, true, false, arith, ◌==◌, if◌then◌else◌}
use hayward.ListT.Seq.{contains}
use hayward.ListT.Members.{IsNodup}
use hayward.Tree.State.{Window, Column, Workspace, update, is_detached}
use hayward.Tree.Window.{can_float}
use hayward.Tree.Inv.{Inv}

-- What is not a list of floating windows changes.
pub same_floating-Inv :
    (windows : ℕ → Window) (columns : ℕ → Column) (workspaces workspaces' : ℕ → Workspace)
    → Inv windows columns workspaces
    → ((k : ℕ) → (workspaces' k).floating_windows ≡ (workspaces k).floating_windows)
    → Inv windows columns workspaces'
same_floating-Inv windows columns workspaces workspaces' v same = record {
  child_column = v.child_column;
  column_child = v.column_child;
  child_workspace = v.child_workspace;
  children_nodup = v.children_nodup;
  active_in = v.active_in;
  active_some = v.active_some;
  floating_back = λ s y h. v.floating_back s y (rw (← same s) h);
  back_floating = λ s y h k. rw (same s) (v.back_floating s y h k);
  floating_nodup = λ s. rw (same s) (v.floating_nodup s);
  attached_alive = v.attached_alive;
}

-- What is not a link of a window changes.
pub relabel-Inv :
    (windows : ℕ → Window) (columns : ℕ → Column) (workspaces : ℕ → Workspace)
    → Inv windows columns workspaces
    → (w : ℕ) (win : Window) → win.column ≡ (windows w).column
    → win.workspace ≡ (windows w).workspace
    → win.dead ≡ (windows w).dead
    → ((s : ℕ)
        → (windows w).workspace ≡ some s
        → (windows w).column ≡ none
        → can_float (windows w) ≡ true
        → can_float win ≡ true)
    → Inv (update windows w win) columns workspaces
relabel-Inv windows columns workspaces v w win wc ww dd cf = record {
  child_column = λ b y h. ground (arith, v.child_column b y);
  column_child = λ b y h. ground (arith, v.column_child b y);
  child_workspace = λ b y h. ground (arith, v.child_workspace b y);
  children_nodup = v.children_nodup;
  active_in = v.active_in;
  active_some = v.active_some;
  floating_back = λ s y h. ground (arith, v.floating_back s y, cf s);
  back_floating = λ s y h k. ground (arith, v.back_floating s y);
  floating_nodup = v.floating_nodup;
  attached_alive = λ y h. ground (arith, v.attached_alive y, v.attached_alive w);
}

module _ (windows : ℕ → Window) (columns : ℕ → Column) (workspaces : ℕ → Workspace)
    (v : Inv windows columns workspaces) (s w : ℕ) where
  -- A window that belongs nowhere floats in the workspace `s`.
  pub float-Inv :
      (space : Workspace) (win : Window)
      → is_detached (windows w) ≡ true
      → ((y : ℕ)
          → contains y space.floating_windows
            ≡ (if w == y then true else contains y (workspaces s).floating_windows))
      → IsNodup space.floating_windows
      → win.column ≡ none
      → win.workspace ≡ some s
      → win.dead ≡ false
      → can_float win ≡ true
      → Inv (update windows w win) columns (update workspaces s space)
  float-Inv space win d members nd wc ww alive cf = record {
    child_column = λ b y h. ground (arith, v.child_column b y);
    column_child = λ b y h. ground (arith, v.column_child b y);
    child_workspace = λ b y h. ground (arith, v.child_workspace b y);
    children_nodup = v.children_nodup;
    active_in = v.active_in;
    active_some = v.active_some;
    floating_back = λ p y h. ground (arith, v.floating_back p y, members y);
    back_floating = λ p y h k. ground (arith, v.back_floating p y, members y);
    floating_nodup = λ p. ground (arith, v.floating_nodup p);
    attached_alive = λ y h. ground (arith, v.attached_alive y);
  }

  -- A floating window leaves its workspace, and belongs nowhere.
  pub unfloat-Inv :
      (space : Workspace) (win : Window)
      → (windows w).workspace ≡ some s
      → (windows w).column ≡ none
      → ((y : ℕ)
          → contains y space.floating_windows
            ≡ (if w == y then false else contains y (workspaces s).floating_windows))
      → IsNodup space.floating_windows
      → win.column ≡ none
      → win.workspace ≡ none
      → Inv (update windows w win) columns (update workspaces s space)
  unfloat-Inv space win here up members nd wc ww = record {
    child_column = λ b y h. ground (arith, v.child_column b y);
    column_child = λ b y h. ground (arith, v.column_child b y);
    child_workspace = λ b y h. ground (arith, v.child_workspace b y);
    children_nodup = v.children_nodup;
    active_in = v.active_in;
    active_some = v.active_some;
    floating_back = λ p y h. ground (arith, v.floating_back p y, members y);
    back_floating = λ p y h k. ground (arith, v.back_floating p y, members y);
    floating_nodup = λ p. ground (arith, v.floating_nodup p);
    attached_alive = λ y h. ground (arith, v.attached_alive y);
  }

  -- A floating window is told again where it is.
  pub refloat-Inv :
      (win : Window)
      → (windows w).workspace ≡ some s
      → (windows w).column ≡ none
      → win.workspace ≡ some s
      → win.column ≡ none
      → win.dead ≡ (windows w).dead
      → can_float win ≡ true
      → Inv (update windows w win) columns workspaces
  refloat-Inv win here up ww wc dd cf = record {
    child_column = λ b y h. ground (arith, v.child_column b y);
    column_child = λ b y h. ground (arith, v.column_child b y);
    child_workspace = λ b y h. ground (arith, v.child_workspace b y);
    children_nodup = v.children_nodup;
    active_in = v.active_in;
    active_some = v.active_some;
    floating_back = λ p y h. ground (arith, v.floating_back p y);
    back_floating = λ p y h k. ground (arith, v.back_floating p y);
    floating_nodup = v.floating_nodup;
    attached_alive = λ y h. ground (arith, v.attached_alive y, v.attached_alive w);
  }

  -- The workspace keeps its floating windows, in any order.
  pub reorder-Inv :
      (space : Workspace)
      → ((y : ℕ) → contains y space.floating_windows ≡ contains y (workspaces s).floating_windows)
      → IsNodup space.floating_windows
      → Inv windows columns (update workspaces s space)
  reorder-Inv space members nd = record {
    child_column = v.child_column;
    column_child = v.column_child;
    child_workspace = v.child_workspace;
    children_nodup = v.children_nodup;
    active_in = v.active_in;
    active_some = v.active_some;
    floating_back = λ p y h. ground (arith, v.floating_back p y, members y);
    back_floating = λ p y h k. ground (arith, v.back_floating p y, members y);
    floating_nodup = λ p. ground (arith, v.floating_nodup p);
    attached_alive = v.attached_alive;
  }
