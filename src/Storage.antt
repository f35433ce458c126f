-- ===== src/Storage.antt =====
-- src/storage: the files of pages, the page cache over them, and the catalog of tables.
pub mod PageStore
pub mod DiskManager
pub mod BufferPool
pub mod PageManager
