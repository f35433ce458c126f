-- ===== src/Recovery.antt =====
-- src/recovery: the write-ahead log and crash recovery.
pub mod LogManager
