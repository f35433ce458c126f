-- ===== src/Transaction/Manager.antt =====
-- src/transaction/Transaction.h and .cpp: the life of a transaction.
use my_db.Base.{
  nat_Eq, ℕ, zero, suc, ◌+◌, ◌^◌, ◌≤◌, ◌<◌, ◌≡◌, refl, ◌∙◌, false, Option, none, some, ◌>>=◌, List,
  [], ◌∷◌, arith, nat_eq, nat_eq_iff, ltb, lt→ltb, Option-cases, inl, inr, if◌then◌else◌,
}
use my_db.Base.Map.{Map, lookup, insert, lookup-insert}
use my_db.Transaction.Requests.{ResourceId, LockRequest, without_txn, holds}
use my_db.Transaction.LockManager.{LockManager, requests_on, unlock_all}
use my_db.Transaction.Tables.{requests_on-unlock_all}

pub data TxnState : Type 0 where
  active committed aborted : TxnState

pub record Transaction : Type 0 where
  pub txn_id : ℕ
  pub state : TxnState
  pub locked_resources : List ResourceId

pub record TransactionManager : Type 0 where
  pub locks : LockManager
  pub transactions : Map ℕ Transaction
  pub next_txn_id : ℕ

abbrev pub new_manager : LockManager → TransactionManager
new_manager locks = record { locks = locks; transactions = []; next_txn_id = 1 }

-- `emplace` keeps an entry that is there; the ids that `begin` hands out are new. The counter is an
-- `int`: `none` is an increment past its range.
unfoldable pub begin : TransactionManager → Option (ℕ × TransactionManager)
begin m =
    let id = m.next_txn_id in
    let new : Transaction = record { txn_id = id; state = active; locked_resources = [] } in
    let kept : Map ℕ Transaction = elim (lookup id m.transactions) [
      | none ↦ insert id new m.transactions
      | some _ ↦ m.transactions
    ] in
    if ltb (id + 1) (2 ^ 31)
    then some (id, record m { transactions = kept; next_txn_id = id + 1 })
    else none

-- `commit` and `abort` differ in the state that they set.
unfoldable pub finish : TxnState → ℕ → TransactionManager → TransactionManager
finish st id m = elim (lookup id m.transactions) [
  | none ↦ m
  | some t ↦ record m {
    transactions = insert id (record t { state = st }) m.transactions;
    locks = unlock_all id m.locks;
  }
]

unfoldable pub commit : ℕ → TransactionManager → TransactionManager
unfolding finish
commit id m = finish committed id m

unfoldable pub abort : ℕ → TransactionManager → TransactionManager
unfolding finish
abort id m = finish aborted id m

unfoldable pub get_transaction : ℕ → TransactionManager → Option Transaction
get_transaction id m = lookup id m.transactions

-- Every id handed out is below the counter.
pub record IsNumbered (m : TransactionManager) : Type 0 where
  pub fresh : (id : ℕ) → m.next_txn_id ≤ id → get_transaction id m ≡ none

abbrev pub new_transaction : ℕ → Transaction
new_transaction id = record { txn_id = id; state = active; locked_resources = [] }

-- What `begin` does with a counter `id` in its range.
pub record Begun (id : ℕ) (m : TransactionManager) (r : ℕ × TransactionManager) : Type 0 where
  pub id_is : r.0 ≡ id
  pub unused : get_transaction id m ≡ none
  pub next : r.1.next_txn_id ≡ id + 1
  pub locks : r.1.locks ≡ m.locks
  pub entries :
      (other : ℕ)
      → get_transaction other r.1
        ≡ (if nat_eq id other then some (new_transaction id) else get_transaction other m)

begun : TransactionManager → ℕ × TransactionManager
begun m = (
  m.next_txn_id,
  record m {
    transactions = insert m.next_txn_id (new_transaction m.next_txn_id) m.transactions;
    next_txn_id = m.next_txn_id + 1;
  },
)

begin-begun :
    (m : TransactionManager) → IsNumbered m → m.next_txn_id + 1 < 2 ^ 31 → begin m ≡ some (begun m)
unfolding begin get_transaction begun
begin-begun m h lt =
    let free : lookup m.next_txn_id m.transactions ≡ none = h.fresh m.next_txn_id (omega arith) in
    rw (free, begin, lt→ltb (m.next_txn_id + 1) (2 ^ 31) lt) refl

begun-Begun : (m : TransactionManager) → IsNumbered m → Begun m.next_txn_id m (begun m)
unfolding begun get_transaction
begun-Begun m h = record {
  id_is = refl;
  unused = h.fresh m.next_txn_id (omega arith);
  next = refl;
  locks = refl;
  entries =
      λ other. lookup-insert m.next_txn_id other (new_transaction m.next_txn_id) m.transactions;
}

begun-IsNumbered : (m : TransactionManager) → IsNumbered m → IsNumbered (begun m).1
unfolding begun get_transaction
begun-IsNumbered m h = record {
  fresh = λ id le. ground (
    arith,
    nat_eq_iff m.next_txn_id id,
    h.fresh id,
    lookup-insert m.next_txn_id id (new_transaction m.next_txn_id) m.transactions,
  );
}

finish-IsNumbered :
    (st : TxnState) (id : ℕ) (m : TransactionManager)
    → IsNumbered m
    → IsNumbered (finish st id m) × ((finish st id m).next_txn_id ≡ m.next_txn_id)
unfolding finish get_transaction
finish-IsNumbered st id m h = elim (Option-cases (lookup id m.transactions)) [
  | inl missing ↦ rw (missing, finish) (h, refl)
  | inr (t, there) ↦
      rw (there, finish)
        (
          record {
            fresh = λ other le. ground (
              arith,
              there,
              nat_eq_iff id other,
              h.fresh other,
              lookup-insert id other (record t { state = st }) m.transactions,
            );
          },
          refl,
        )
]

-- The calls of a session.
pub data TxnCall : Type 0 where
  begin_call : TxnCall
  commit_call abort_call : ℕ → TxnCall

-- The ids handed out, and the manager behind the calls.
unfoldable pub run_txns : List TxnCall → TransactionManager → Option (List ℕ × TransactionManager)
unfolding begin commit abort
run_txns [] m = some ([], m)
run_txns (begin_call ∷ xs) m = do
  (id, m') ← begin m
  (ids, m'') ← run_txns xs m'
  some (id ∷ ids, m'')
run_txns (commit_call id ∷ xs) m = run_txns xs (commit id m)
run_txns (abort_call id ∷ xs) m = run_txns xs (abort id m)

abbrev pub begins : List TxnCall → ℕ
begins [] = 0
begins (begin_call ∷ xs) = suc (begins xs)
begins (commit_call id ∷ xs) = begins xs
begins (abort_call id ∷ xs) = begins xs

-- The `n` numbers from `a` on.
abbrev pub up_from : ℕ → ℕ → List ℕ
up_from a zero = []
up_from a (suc n) = a ∷ up_from (suc a) n

begun-id : (m : TransactionManager) → (begun m).0 ≡ m.next_txn_id
unfolding begun
begun-id m = refl

new_manager-IsNumbered : (locks : LockManager) → IsNumbered (new_manager locks)
unfolding get_transaction lookup
new_manager-IsNumbered locks = record { fresh = λ id le. refl }

begun-next : (m : TransactionManager) → (begun m).1.next_txn_id ≡ suc m.next_txn_id
unfolding begun
begun-next m = omega arith

run_txns-up_from :
    (xs : List TxnCall) (m : TransactionManager)
    → IsNumbered m
    → m.next_txn_id + begins xs < 2 ^ 31
    → (m' : TransactionManager) × (run_txns xs m ≡ some (up_from m.next_txn_id (begins xs), m'))
      × IsNumbered m'
      × (m'.next_txn_id ≡ m.next_txn_id + begins xs)
unfolding run_txns commit abort
run_txns-up_from [] m h lt = (m, refl, h, omega arith)
run_txns-up_from (begin_call ∷ xs) m h lt =
    let first = begin-begun m h (omega (arith, lt)) in
    let next = begun-next m in
    let (m', run, numbered, at) =
      run_txns-up_from xs (begun m).1 (begun-IsNumbered m h) (omega (arith, lt, next)) in
    (m', rw (first, run_txns, run, next, begun-id m) refl, numbered, omega (arith, at, next))
run_txns-up_from (commit_call id ∷ xs) m h lt =
    let (numbered, same) = finish-IsNumbered committed id m h in
    let (m', run, numbered', at) =
      run_txns-up_from xs (finish committed id m) numbered (omega (arith, lt, same)) in
    (m', run ∙ rw same refl, numbered', omega (arith, at, same))
run_txns-up_from (abort_call id ∷ xs) m h lt =
    let (numbered, same) = finish-IsNumbered aborted id m h in
    let (m', run, numbered', at) =
      run_txns-up_from xs (finish aborted id m) numbered (omega (arith, lt, same)) in
    (m', run ∙ rw same refl, numbered', omega (arith, at, same))

-- After any calls of a new manager, fewer than 2 ^ 31 - 2 of them `begin`: the ids handed out are 1,
-- 2, 3 and so on, and the next `begin` hands out the number behind them, which no transaction has,
-- for an active transaction, and leaves the other transactions and the locks as they are.
pub run_txns-begin :
    (xs : List TxnCall) (locks : LockManager)
    → begins xs + 2 < 2 ^ 31
    → (m : TransactionManager) × (r : ℕ × TransactionManager) × (run_txns xs (new_manager locks)
        ≡ some (up_from 1 (begins xs), m))
      × (begin m ≡ some r)
      × Begun (suc (begins xs)) m r
run_txns-begin xs locks lt =
    let empty = new_manager-IsNumbered locks in
    let (m, run, numbered, at) =
      run_txns-up_from xs (new_manager locks) empty (omega (arith, lt)) in
    let is : m.next_txn_id ≡ suc (begins xs) = omega (arith, at) in
    (
      m,
      begun m,
      run,
      begin-begun m numbered (omega (arith, lt, is)),
      rw is at (begun-Begun m numbered),
    )

holds-without_txn : (t : ℕ) (rs : List LockRequest) → holds t (without_txn t rs) ≡ false
unfolding holds without_txn
holds-without_txn t [] = refl
holds-without_txn t (r ∷ rs) = ground (arith, holds-without_txn t rs)

-- What finishing transaction `id` in state `st` does.
pub record Finished (st : TxnState) (id : ℕ) (t : Transaction) (m m' : TransactionManager)
    : Type 0 where
  pub entries :
      (other : ℕ)
      → get_transaction other m'
        ≡ (if nat_eq id other then some (record t { state = st }) else get_transaction other m)
  pub requests :
      (res : ResourceId) → requests_on res m'.locks ≡ without_txn id (requests_on res m.locks)
  pub free : (res : ResourceId) → holds id (requests_on res m'.locks) ≡ false

finish-Finished :
    (st : TxnState) (id : ℕ) (m : TransactionManager) (t : Transaction)
    → get_transaction id m ≡ some t
    → Finished st id t m (finish st id m)
unfolding finish get_transaction
finish-Finished st id m t h = record {
  entries =
      λ other. ground (arith, h, lookup-insert id other (record t { state = st }) m.transactions);
  requests = λ res. ground (arith, h, requests_on-unlock_all id res m.locks);
  free = λ res. ground (
    arith,
    h,
    requests_on-unlock_all id res m.locks,
    holds-without_txn id (requests_on res m.locks),
  );
}

-- Committing a known transaction makes it committed, aborting it makes it aborted; both take all its
-- lock requests from every resource and keep the others', and leave the other transactions.
pub commit-abort :
    (id : ℕ) (m : TransactionManager) (t : Transaction)
    → get_transaction id m ≡ some t
    → Finished committed id t m (commit id m) × Finished aborted id t m (abort id m)
unfolding commit abort
commit-abort id m t h = (finish-Finished committed id m t h, finish-Finished aborted id m t h)
