-- ===== src/Queue.antt =====
-- packages/queue: how many jobs a worker runs at a time.
pub mod Gate
