-- ===== src/Handler.antt =====
-- `DefaultRequestHandler` of src/server/request_handler/default_request_handler.ts.
pub mod History
pub mod Context
pub mod Card
pub mod Stream
pub mod Settle
pub mod Tasks
pub mod Push
pub mod Send
pub mod Subscribe
