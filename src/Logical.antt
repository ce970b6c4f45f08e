-- ===== src/Logical.antt =====
-- src/components/logical: shards and workers.
mod Tests
pub mod Shard
pub mod Worker
