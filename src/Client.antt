-- ===== src/Client.antt =====
-- The client of src/client/: what it does around the calls of its transport.
pub mod Interceptors
pub mod Factory
pub mod Stream
