-- ===== src/Queue.antt =====
-- internal/queue: the workers.
pub mod Worker
pub mod Digest
