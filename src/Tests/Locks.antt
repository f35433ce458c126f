-- ===== src/Tests/Locks.antt =====
-- Locks and transactions at small inputs (src/transaction).
use my_db.Base.{
  ℕ, member, erase_id, nat_Eq, ◌≡◌, ◌↔◌, refl, true, false, some, List, [], ◌∷◌, arith,
}
use my_db.Base.Bytes.{codes}
use my_db.Base.Map.{lookup, insert, erase}
use my_db.Transaction.Requests.{
  shared, exclusive, ResourceId, holds, holds_exclusive, blocks_shared, blocks_exclusive,
  grant_first, erase_granted, without_txn, mentions,
}
use my_db.Transaction.Deadlock.{
  WaitFor, insert_id, neighbours, visit_neighbours, detect_cycle, has_deadlock,
}
use my_db.Transaction.Deadlock.Cycles.{Cycle}
use my_db.Transaction.Deadlock.Complete.{has_deadlock-iff-Cycle}
use my_db.Transaction.LockManager.{
  new_lock_manager, requests_on, put_requests, add_waits, grant_or_wait, lock_shared,
  lock_exclusive, is_blocked, wake, store_or_erase, unlock, to_unlock, unlock_each, unlock_all,
}
use my_db.Transaction.Threads.{new_system, Event, lock, wake_up, release_all, call_lock, step, run}
use my_db.Transaction.Interleaving.{run-exclusion}
use my_db.Transaction.Manager.{
  TransactionManager, Transaction, active, committed, new_manager, begin, finish, commit,
  get_transaction, abort, aborted, Begun, Finished, TxnCall, begin_call, commit_call, abort_call,
  run_txns, up_from, run_txns-begin, commit-abort,
}

program : Unit {0}
unfolding lookup insert erase holds holds_exclusive blocks_shared blocks_exclusive grant_first
    erase_granted without_txn mentions member insert_id erase_id neighbours visit_neighbours
    detect_cycle has_deadlock requests_on put_requests add_waits grant_or_wait lock_shared
    lock_exclusive is_blocked wake store_or_erase unlock to_unlock unlock_each unlock_all call_lock
    step run begin finish commit get_transaction
program = tt

abbrev page : ResourceId
page = record { table_name = codes "t"; page_id = 1; slot_num = 0xffff }

-- Two readers; a writer waits for both, and has the page when they are done.
abbrev readers : List Event
readers = lock shared 1 page ∷ lock shared 2 page ∷ lock exclusive 3 page ∷ []

readers_test :
    requests_on page (run readers new_system).manager
    ≡ record { txn_id = 1; mode = shared; granted = true }
      ∷ record { txn_id = 2; mode = shared; granted = true }
      ∷ record { txn_id = 3; mode = exclusive; granted = false }
      ∷ []
unfolding program
readers_test = refl

writer_test :
    requests_on page
      (run (release_all 1 ∷ release_all 2 ∷ wake_up 3 ∷ []) (run readers new_system)).manager
    ≡ record { txn_id = 3; mode = exclusive; granted = true } ∷ []
unfolding program
writer_test = refl

run-exclusion_example : (shared ≡ shared) × (shared ≡ shared)
unfolding program
run-exclusion_example =
    run-exclusion readers page 0 1 {r = record { txn_id = 1; mode = shared; granted = true }}
      {q = record { txn_id = 2; mode = shared; granted = true }} (omega arith) refl refl refl refl
      (omega arith)

abbrev circle : WaitFor
circle = (1, 2 ∷ []) ∷ (2, 3 ∷ []) ∷ (3, 2 ∷ []) ∷ []

circle_test : has_deadlock circle 1 ≡ true
unfolding program
circle_test = refl

has_deadlock-iff-Cycle_example : (has_deadlock circle 1 ≡ true) ↔ Cycle circle 1
has_deadlock-iff-Cycle_example = has_deadlock-iff-Cycle circle 1

abbrev empty_manager : TransactionManager
empty_manager = new_manager new_lock_manager

abbrev first : Transaction
first = record { txn_id = 1; state = active; locked_resources = [] }

abbrev running : TransactionManager
running = record {
  locks = (run readers new_system).manager;
  transactions = (1, first) ∷ [];
  next_txn_id = 2;
}

abbrev session : List TxnCall
session = begin_call ∷ begin_call ∷ commit_call 1 ∷ begin_call ∷ abort_call 2 ∷ []

run_txns-begin_example :
    (m : TransactionManager) × (r : ℕ × TransactionManager) × (run_txns session
        (new_manager new_lock_manager)
      ≡ some (up_from 1 3, m))
    × (begin m ≡ some r)
    × Begun 4 m r
run_txns-begin_example = run_txns-begin session new_lock_manager (omega arith)

commit-abort_example :
    Finished committed 1 first running (commit 1 running)
    × Finished aborted 1 first running (abort 1 running)
unfolding program
commit-abort_example = commit-abort 1 running first refl
