-- ===== src/Tests.antt =====
-- Runs of the definitions at small inputs, and the theorems at concrete ones.
mod Wal
mod Locks
mod Sql
mod Pages
mod Rows
mod Heap
mod Index
