-- ===== src/Tree/Links.antt =====
-- The changes to the links that the operations on columns are made of, and that each keeps the
-- tree well formed: a window put into a column, taken out of one, told again where it is, and made
-- the active child.
use hayward.Common.{ℕ, ◌≡◌, [], none, some, true, false, arith, ◌==◌, if◌then◌else◌}
use hayward.ListT.Seq.{contains}
use hayward.ListT.Members.{IsNodup}
use hayward.Tree.State.{Window, Column, Workspace, update, is_detached}
use hayward.Tree.Inv.{Inv}

module _ (windows : ℕ → Window) (columns : ℕ → Column) (workspaces : ℕ → Workspace)
    (v : Inv windows columns workspaces) (c w : ℕ) where
  -- A window that belongs nowhere becomes a child of `c`.
  pub attach-Inv :
      (col : Column) (win : Window)
      → is_detached (windows w) ≡ true
      → ((y : ℕ)
          → contains y col.children ≡ (if w == y then true else contains y (columns c).children))
      → IsNodup col.children
      → col.workspace ≡ (columns c).workspace
      → win.column ≡ some c
      → win.workspace ≡ col.workspace
      → win.dead ≡ false
      → ((a : ℕ) → col.active_child ≡ some a → contains a col.children ≡ true)
      → (col.active_child ≡ none → col.children ≡ [])
      → Inv (update windows w win) (update columns c col) workspaces
  attach-Inv col win d members nd cw wc ww alive a_in a_some = record {
    child_column = λ b y h. ground (arith, v.child_column b y, members y);
    column_child = λ b y h. ground (arith, v.column_child b y, members y);
    child_workspace = λ b y h. ground (arith, v.child_workspace b y);
    children_nodup = λ b. ground (arith, v.children_nodup b);
    active_in = λ b a h. ground (arith, v.active_in b a, a_in a);
    active_some = λ b h. ground (arith, v.active_some b);
    floating_back = λ s y h. ground (arith, v.floating_back s y);
    back_floating = λ s y h k. ground (arith, v.back_floating s y);
    floating_nodup = v.floating_nodup;
    attached_alive = λ y h. ground (arith, v.attached_alive y);
  }

  -- A child of `c` leaves it, and belongs nowhere.
  pub detach-Inv :
      (col : Column) (win : Window)
      → (windows w).column ≡ some c
      → ((y : ℕ)
          → contains y col.children ≡ (if w == y then false else contains y (columns c).children))
      → IsNodup col.children
      → col.workspace ≡ (columns c).workspace
      → win.column ≡ none
      → win.workspace ≡ none
      → ((a : ℕ) → col.active_child ≡ some a → contains a col.children ≡ true)
      → (col.active_child ≡ none → col.children ≡ [])
      → Inv (update windows w win) (update columns c col) workspaces
  detach-Inv col win here members nd cw wc ww a_in a_some = record {
    child_column = λ b y h. ground (arith, v.child_column b y, members y);
    column_child = λ b y h. ground (arith, v.column_child b y, members y);
    child_workspace = λ b y h. ground (arith, v.child_workspace b y);
    children_nodup = λ b. ground (arith, v.children_nodup b);
    active_in = λ b a h. ground (arith, v.active_in b a, a_in a);
    active_some = λ b h. ground (arith, v.active_some b);
    floating_back = λ s y h. ground (arith, v.floating_back s y);
    back_floating = λ s y h k. ground (arith, v.back_floating s y);
    floating_nodup = v.floating_nodup;
    attached_alive = λ y h. ground (arith, v.attached_alive y);
  }

  -- A child of `c` is told again where it is.
  pub relink-Inv :
      (win : Window)
      → (windows w).column ≡ some c
      → win.column ≡ some c
      → win.workspace ≡ (columns c).workspace
      → win.dead ≡ (windows w).dead
      → Inv (update windows w win) columns workspaces
  relink-Inv win here wc ww dd = record {
    child_column = λ b y h. ground (arith, v.child_column b y);
    column_child = λ b y h. ground (arith, v.column_child b y);
    child_workspace = λ b y h. ground (arith, v.child_workspace b y);
    children_nodup = v.children_nodup;
    active_in = v.active_in;
    active_some = v.active_some;
    floating_back = λ s y h. ground (arith, v.floating_back s y);
    back_floating = λ s y h k. ground (arith, v.back_floating s y);
    floating_nodup = v.floating_nodup;
    attached_alive = λ y h. ground (arith, v.attached_alive y, v.attached_alive w);
  }

  -- A child of `c` becomes the active one.
  pub activate-Inv :
      (col : Column)
      → (windows w).column ≡ some c
      → col.children ≡ (columns c).children
      → col.workspace ≡ (columns c).workspace
      → col.active_child ≡ some w
      → Inv windows (update columns c col) workspaces
  activate-Inv col here same cw active = record {
    child_column = λ b y h. ground (arith, v.child_column b y);
    column_child = λ b y h. ground (arith, v.column_child b y);
    child_workspace = λ b y h. ground (arith, v.child_workspace b y);
    children_nodup = λ b. ground (arith, v.children_nodup b);
    active_in = λ b a h. ground (arith, v.active_in b a, v.column_child c w);
    active_some = λ b h. ground (arith, v.active_some b);
    floating_back = v.floating_back;
    back_floating = v.back_floating;
    floating_nodup = v.floating_nodup;
    attached_alive = v.attached_alive;
  }
