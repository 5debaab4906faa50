-- ===== src/Wal.antt =====
-- The write-ahead log: positions in it, and what is read from and written to it.
pub mod Position
pub mod Text
