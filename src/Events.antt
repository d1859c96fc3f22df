-- ===== src/Events.antt =====
-- The events of an execution, from the executor's bus to a consumer.
pub mod Queue
pub mod Bus
