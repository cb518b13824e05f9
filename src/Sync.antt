-- ===== src/Sync.antt =====
-- The examples of sync-examples/: threads that share counters, leaders and a buffer.
pub mod Counter
pub mod Election
pub mod Procon
pub mod Tests
