-- ===== src/Archive.antt =====
-- The backup archive: basebackups, what locks them, and the WAL that may be removed with them.
pub mod Backup
pub mod Shm
pub mod Lock
pub mod Cleanup
pub mod Removal
