-- ===== src/Recovery/LogManager.antt =====
-- src/recovery/LogManager.h and .cpp: log records, their bytes, the log file and its buffer.
pub mod Serialize
pub mod RoundTrip
pub mod Log
pub mod Frames
pub mod Durable
pub mod Calls
pub mod Opening
