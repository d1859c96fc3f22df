-- ===== src/Compat.antt =====
-- The translation between the two versions of the protocol.
pub mod Enums
pub mod Failures
pub mod Legacy
pub mod Parts
pub mod Messages
pub mod Tasks
pub mod Push
pub mod Requests
pub mod Responses
