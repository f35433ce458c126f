-- ===== src/Common.antt =====
-- src/common/*.h: the values, columns, schemas, tuples and record identifiers that the components
-- exchange, the constants, and the exceptions that the program throws.
pub mod Exception
pub mod Value
pub mod Schema
pub mod Tuple
pub mod Rid
pub mod Config
