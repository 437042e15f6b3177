-- ===== src/Tree.antt =====
-- src/tree: the windows, columns, workspaces and outputs, and who has the focus. A pointer is a
-- number, NULL is `none`, and each kind of object has a store, a function from pointers. The
-- lists are plain lists: ListT proves that list.c implements their operations. An assertion that
-- fails, or a NULL that is dereferenced, is `none`. The geometry, the scene graph and the clients'
-- surfaces are left out, and so are listeners other than the transaction's: nothing in the
-- repository listens to a column's or a workspace's begin_destroy signal.
pub mod State
pub mod Window
pub mod Column
pub mod Workspace
pub mod Floating
pub mod Focus
pub mod Lifecycle
pub mod Root
pub mod Naming
pub mod Inv
mod Links
mod Floats
