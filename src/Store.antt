-- ===== src/Store.antt =====
-- The stores of the server: the scoping that both in-memory stores share, the interface by which
-- the request handler sees a task store, and the two in-memory stores.
pub mod Scoped
pub mod Interface
pub mod Tasks
pub mod Push
