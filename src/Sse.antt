-- ===== src/Sse.antt =====
-- Server-sent events: src/sse_utils.ts.
pub mod Parser
pub mod Chunks
pub mod Format
