-- ===== src/Worker.antt =====
-- The background workers of internal/worker: the backoff that the inbox and outbox processors
-- share.
pub mod Backoff
pub mod Queues
mod Tests
