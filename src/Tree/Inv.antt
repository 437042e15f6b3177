-- ===== src/Tree/Inv.antt =====
-- When the tree is well formed, as far as windows, columns and floating windows go.
use hayward.Common.{ℕ, ◌≡◌, [], none, some, true, false}
use hayward.ListT.Seq.{contains}
use hayward.ListT.Members.{IsNodup}
use hayward.Tree.State.{Tree, Window, Column, Workspace, is_detached}
use hayward.Tree.Window.{can_float}

-- The forward links (children and floating windows) and the back links (window->column and
-- window->workspace) say the same, no window is listed twice, an active child is a child, a
-- column with children has an active one, the windows that belong somewhere are alive, and those
-- that float have a size or an output that gives them one.
pub record Inv (windows : ℕ → Window) (columns : ℕ → Column) (workspaces : ℕ → Workspace)
    : Type 0 where
  pub child_column :
      (c w : ℕ) → contains w (columns c).children ≡ true → (windows w).column ≡ some c
  pub column_child :
      (c w : ℕ) → (windows w).column ≡ some c → contains w (columns c).children ≡ true
  pub child_workspace :
      (c w : ℕ) → (windows w).column ≡ some c → (windows w).workspace ≡ (columns c).workspace
  pub children_nodup : (c : ℕ) → IsNodup (columns c).children
  pub active_in :
      (c a : ℕ) → (columns c).active_child ≡ some a → contains a (columns c).children ≡ true
  pub active_some : (c : ℕ) → (columns c).active_child ≡ none → (columns c).children ≡ []
  pub floating_back :
      (s w : ℕ)
      → contains w (workspaces s).floating_windows ≡ true
      → ((windows w).workspace ≡ some s)
        × ((windows w).column ≡ none)
        × (can_float (windows w) ≡ true)
  pub back_floating :
      (s w : ℕ)
      → (windows w).workspace ≡ some s
      → (windows w).column ≡ none
      → contains w (workspaces s).floating_windows ≡ true
  pub floating_nodup : (s : ℕ) → IsNodup (workspaces s).floating_windows
  pub attached_alive : (w : ℕ) → is_detached (windows w) ≡ false → (windows w).dead ≡ false

abbrev pub IsWellFormed : Tree → Type 0
IsWellFormed t = Inv t.windows t.columns t.workspaces
