-- ===== src/Tree/State.antt =====
-- include/hayward/tree: the fields of the tree's objects that say who belongs where, and the marks
-- of those that take part in the next transaction.
pub use hayward.Common.Chains.{◌>>=◌, ◌>>◌}
use hayward.Common.{ℕ, List, Option, none, some, Bool, true, false, ◌==◌, ◌&&◌, if◌then◌else◌}
use hayward.Transaction.{Manager, hwd_transaction_manager_ensure_queued}

pub data FocusMode : Type 0 where
  tiling floating : FocusMode

pub record Window : Type 0 where
  pub workspace : Option ℕ
  pub column : Option ℕ
  pub output_history : List (Option ℕ)
  pub output : Option ℕ
  pub fullscreen : Bool
  pub moving : Bool
  -- floating_width > 0 && floating_height > 0
  pub is_sized : Bool
  pub dead : Bool

pub record Column : Type 0 where
  pub children : List ℕ
  pub active_child : Option ℕ
  pub workspace : Option ℕ
  pub output : Option ℕ
  pub dead : Bool

pub record Workspace : Type 0 where
  pub floating_windows : List ℕ
  pub columns : List ℕ
  pub active_column : Option ℕ
  pub focus_mode : FocusMode
  pub dead : Bool

pub record Root : Type 0 where
  pub outputs : List ℕ
  pub workspaces : List ℕ
  pub active_workspace : Option ℕ
  pub active_output : Option ℕ
  pub active_layer : Option ℕ
  pub active_unmanaged : Option ℕ

-- The objects that take part in transactions.
pub data Node : Type 0 where
  window_node column_node workspace_node output_node : ℕ → Node
  root_node : Node

abbrev pub is_node : Node → Node → Bool
is_node (window_node a) (window_node b) = a == b
is_node (column_node a) (column_node b) = a == b
is_node (workspace_node a) (workspace_node b) = a == b
is_node (output_node a) (output_node b) = a == b
is_node root_node root_node = true
is_node _ _ = false

pub record Tree : Type 0 where
  pub windows : ℕ → Window
  pub columns : ℕ → Column
  pub workspaces : ℕ → Workspace
  pub root : Root
  pub dirty : Node → Bool
  pub manager : Manager

abbrev pub update {ℓ} : {A : Type ℓ} → (ℕ → A) → ℕ → A → ℕ → A
update f p v q = if p == q then v else f q

abbrev pub put_window : Tree → ℕ → Window → Tree
put_window t p v = record t { windows = update t.windows p v }

abbrev pub put_column : Tree → ℕ → Column → Tree
put_column t p v = record t { columns = update t.columns p v }

abbrev pub put_workspace : Tree → ℕ → Workspace → Tree
put_workspace t p v = record t { workspaces = update t.workspaces p v }

abbrev pub put_root : Tree → Root → Tree
put_root t v = record t { root = v }

-- The `_set_dirty` functions of the five kinds: an object that is not marked yet joins the commit
-- signal, which its mark stands for, and a transaction is queued.
unfoldable pub set_dirty : Tree → Node → Tree
set_dirty t n = record t {
  dirty = λ k. if is_node n k then true else t.dirty k;
  manager = if t.dirty n then t.manager else hwd_transaction_manager_ensure_queued t.manager;
}

-- `assert`
abbrev pub assert : Bool → Option (Unit {0})
assert true = some tt
assert false = none

abbrev pub is_null : Option ℕ → Bool
is_null none = true
is_null (some a) = false

-- window->workspace == NULL and window->column == NULL
abbrev pub is_detached : Window → Bool
is_detached w = is_null w.workspace && is_null w.column
