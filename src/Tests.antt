-- ===== src/Tests.antt =====
-- Concrete runs: small arrays, a transaction with two views and a tree with a column, which the
-- theorems are applied to.
mod Arrays
mod Transactions
mod Trees
mod Spaces
mod Inputs
mod Keys
mod Seats
mod Lines
mod Binds
mod Frames
mod Waiting
mod Files
