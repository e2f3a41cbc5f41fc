-- ===== src/Memory.antt =====
-- internal/adapters/memory: the storage ports kept in process memory.
pub mod Entries
pub mod Queue
pub mod Versions
pub mod Plans
pub mod Artifacts
