-- ===== src/Stream.antt =====
-- The messages of the streaming replication protocol and the WAL files that they are written to
-- (src/backup/xlogdefs.cxx, src/backup/backup.cxx).
pub mod Message
pub mod Decode
pub mod Send
pub mod LogBackup
pub mod Receiver
