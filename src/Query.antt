-- ===== src/Query.antt =====
-- src/query: what the executors do with rows.
pub mod TupleBytes
