-- ===== src/Stm.antt =====
-- 353055: a TL2-style transactional memory. Each operation is modelled as it runs without
-- interference; the transactions interleave between operations.
pub mod Destroy
pub mod Memory
pub mod Types
pub mod Locks
pub mod Bloom
pub mod Alloc
pub mod Begin
pub mod Read
pub mod Write
pub mod Commit
pub mod Snapshot
pub mod Opacity
pub mod System
pub mod Totality
pub mod Word
pub mod Overlap
pub mod Faults
pub mod Fresh
pub mod Conflict
pub mod RoundTrip
pub mod Tests
