-- ===== src/Index.antt =====
-- src/index: the B+ tree over the int keys of a table.
pub mod BPlusTree
