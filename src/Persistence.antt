-- ===== src/Persistence.antt =====
-- engine/src/storage/persistence_manager.cc: the files of a table.
pub mod Stream
pub mod Wal
pub mod Messages
pub mod Snapshot
