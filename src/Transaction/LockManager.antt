-- ===== src/Transaction/LockManager.antt =====
-- src/transaction/LockManager.h and .cpp. Each call runs under the manager's mutex, so it is one
-- step; a call that waits on the condition variable is two, the call and its waking.
use my_db.Base.{
  nat_Eq, ℕ, Bool, true, false, not, ◌&&◌, Option, none, some, List, [], ◌∷◌, ◌++◌, nat_eq,
  if◌then◌else◌,
}
use my_db.Base.Map.{Map, lookup, insert, erase}
use my_db.Transaction.Requests.{
  LockMode, shared, exclusive, ResourceId, resource_Eq, LockRequest, holds, holds_exclusive,
  blocks_shared, blocks_exclusive, grant_first, erase_granted, without_txn, mentions,
}
use my_db.Transaction.Deadlock.{WaitFor, insert_id, neighbours, has_deadlock}

pub record LockManager : Type 0 where
  pub lock_table : Map ResourceId (List LockRequest)
  pub wait_for : WaitFor

abbrev pub new_lock_manager : LockManager
new_lock_manager = record { lock_table = []; wait_for = [] }

-- The caller of `lockShared` or `lockExclusive` returns true, returns false, or waits.
pub data LockOutcome : Type 0 where
  granted refused waiting : LockOutcome

-- `lockTable_[res]`, which enters an empty list for a new resource.
unfoldable pub requests_on : ResourceId → LockManager → List LockRequest
requests_on res lm = elim (lookup res lm.lock_table) [ none ↦ [] | some rs ↦ rs ]

unfoldable pub put_requests : ResourceId → List LockRequest → LockManager → LockManager
put_requests res rs lm = record lm { lock_table = insert res rs lm.lock_table }

-- The transaction waits for every other one that holds a lock here.
unfoldable pub add_waits : ℕ → List LockRequest → WaitFor → WaitFor
add_waits t [] g = g
add_waits t (r ∷ rs) g = add_waits t rs (
    if not (nat_eq r.txn_id t) && r.granted
    then insert t (insert_id r.txn_id (neighbours g t)) g
    else g)

-- The part of both calls after the tests: the lock is granted, or the caller is to wait unless
-- that closes a cycle.
unfoldable pub grant_or_wait :
    ℕ → LockMode → ResourceId → Bool → LockManager → LockOutcome × LockManager
grant_or_wait t mode res blocked lm =
    let rs = requests_on res lm in
    if not blocked
    then (
      granted,
      put_requests res (rs ++ record { txn_id = t; mode = mode; granted = true } ∷ []) lm,
    )
    else let g = add_waits t rs lm.wait_for in
      if has_deadlock g t then (refused, record lm { wait_for = erase t g }) else (
        waiting,
        put_requests res (rs ++ record { txn_id = t; mode = mode; granted = false } ∷ [])
            (record lm { wait_for = g }),
      )

-- A transaction with any lock on the resource is not upgraded.
unfoldable pub lock_shared : ℕ → ResourceId → LockManager → LockOutcome × LockManager
unfolding grant_or_wait
lock_shared t res lm =
    let rs = requests_on res lm in
    if holds t rs then (granted, lm) else grant_or_wait t shared res (blocks_shared t rs) lm

unfoldable pub lock_exclusive : ℕ → ResourceId → LockManager → LockOutcome × LockManager
unfolding grant_or_wait
lock_exclusive t res lm =
    let rs = requests_on res lm in
    if holds_exclusive t rs
    then (granted, lm)
    else grant_or_wait t exclusive res (blocks_exclusive t rs) lm

-- The test that a waiting call repeats under `cv_.wait`.
unfoldable pub is_blocked : LockMode → ℕ → List LockRequest → Bool
is_blocked shared t rs = blocks_shared t rs
is_blocked exclusive t rs = blocks_exclusive t rs

-- The rest of a waiting call, when its test is passed; `none` while it is not.
unfoldable pub wake : LockMode → ℕ → ResourceId → LockManager → Option LockManager
unfolding is_blocked
wake mode t res lm =
    let rs = requests_on res lm in
    if is_blocked mode t rs
    then none
    else some (record (put_requests res (grant_first t rs) lm) { wait_for = erase t lm.wait_for })

abbrev is_empty : List LockRequest → Bool
is_empty [] = true
is_empty (_ ∷ _) = false

-- A list of requests is written back, or its entry goes if it is empty.
unfoldable pub store_or_erase : ResourceId → List LockRequest → LockManager → LockManager
store_or_erase res rs lm =
    if is_empty rs
    then record lm { lock_table = erase res lm.lock_table }
    else put_requests res rs lm

unfoldable pub unlock : ℕ → ResourceId → LockManager → LockManager
unlock t res lm = elim (lookup res lm.lock_table) [
  | none ↦ lm
  | some rs ↦ store_or_erase res (erase_granted t rs) lm
]

-- The resources on which the transaction has a request.
unfoldable pub to_unlock : ℕ → Map ResourceId (List LockRequest) → List ResourceId
to_unlock t [] = []
to_unlock t ((res, rs) ∷ m) = let rest = to_unlock t m in if mentions t rs then res ∷ rest else rest

unfoldable pub unlock_each : ℕ → List ResourceId → LockManager → LockManager
unlock_each t [] lm = lm
unlock_each t (res ∷ rest) lm =
    unlock_each t rest (store_or_erase res (without_txn t (requests_on res lm)) lm)

unfoldable pub unlock_all : ℕ → LockManager → LockManager
unlock_all t lm =
    let lm' = unlock_each t (to_unlock t lm.lock_table) lm in
    record lm' { wait_for = erase t lm'.wait_for }
