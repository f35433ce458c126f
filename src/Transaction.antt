-- ===== src/Transaction.antt =====
-- src/transaction: locks under strict two-phase locking, deadlock detection, and the transactions.
pub mod Requests
pub mod Deadlock
pub mod LockManager
pub mod Tables
pub mod Compatible
pub mod Granting
pub mod Threads
pub mod Safety
pub mod Interleaving
pub mod Manager
