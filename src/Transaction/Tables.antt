-- ===== src/Transaction/Tables.antt =====
-- What each operation of src/transaction/LockManager.cpp leaves on every resource.
use my_db.Transaction.Deadlock.{WaitFor}
use my_db.Base.{
  nat_Eq, ℕ, ◌≡◌, refl, ◌∙◌, Bool, false, ◌||◌, some, List, [], ◌∷◌, arith, Option-cases, inl, inr,
  if◌then◌else◌,
}
use my_db.Base.Map.{Map, lookup, erase, lookup-insert, lookup-erase}
use my_db.Transaction.Requests.{
  ResourceId, resource_eq, resource_eq_iff, resource_Eq, LockRequest, mentions, without_txn,
  erase_granted,
}
use my_db.Transaction.LockManager.{
  LockManager, requests_on, put_requests, store_or_erase, unlock, to_unlock, unlock_each,
  unlock_all,
}

pub requests_on-put :
    (res other : ResourceId) (rs : List LockRequest) (lm : LockManager)
    → requests_on other (put_requests res rs lm)
      ≡ (if resource_eq res other then rs else requests_on other lm)
unfolding requests_on put_requests
requests_on-put res other rs lm = ground (arith, lookup-insert res other rs lm.lock_table)

pub requests_on-store :
    (res other : ResourceId) (rs : List LockRequest) (lm : LockManager)
    → requests_on other (store_or_erase res rs lm)
      ≡ (if resource_eq res other then rs else requests_on other lm)
unfolding store_or_erase
requests_on-store res other [] lm =
    unfold requests_on in ground (arith, lookup-erase res other lm.lock_table)
requests_on-store res other (r ∷ rs) lm = requests_on-put res other (r ∷ rs) lm

pub requests_on-unlock :
    (t : ℕ) (res other : ResourceId) (lm : LockManager)
    → requests_on other (unlock t res lm) ≡ (
        if resource_eq res other
        then erase_granted t (requests_on res lm)
        else requests_on other lm)
unfolding unlock requests_on erase_granted
requests_on-unlock t res other lm = elim (Option-cases (lookup res lm.lock_table)) [
  | inl e ↦ ground (arith, resource_eq_iff res other, e)
  | inr (rs, e) ↦ ground (arith, e, requests_on-store res other (erase_granted t rs) lm)
]

without_txn_absent : (t : ℕ) (rs : List LockRequest) → mentions t rs ≡ false → without_txn t rs ≡ rs
unfolding mentions without_txn
without_txn_absent t [] h = refl
without_txn_absent t (r ∷ rs) h = ground (arith, without_txn_absent t rs)

without_txn_twice :
    (t : ℕ) (rs : List LockRequest) → without_txn t (without_txn t rs) ≡ without_txn t rs
unfolding without_txn
without_txn_twice t [] = refl
without_txn_twice t (r ∷ rs) = ground (arith, without_txn_twice t rs)

listed : ResourceId → List ResourceId → Bool
listed res [] = false
listed res (r ∷ rs) = resource_eq r res || listed res rs

-- A resource that is not collected has no request of the transaction.
not_listed :
    (t : ℕ) (res : ResourceId) (m : Map ResourceId (List LockRequest)) (rs : List LockRequest)
    → lookup res m ≡ some rs
    → listed res (to_unlock t m) ≡ false
    → mentions t rs ≡ false
unfolding lookup listed to_unlock
not_listed t res [] rs e h = absurd (ground arith)
not_listed t res ((r, qs) ∷ m) rs e h = ground (arith, not_listed t res m rs)

requests_on-unlock_each :
    (t : ℕ) (res : ResourceId) (todo : List ResourceId) (lm : LockManager)
    → requests_on res (unlock_each t todo lm)
      ≡ (if listed res todo then without_txn t (requests_on res lm) else requests_on res lm)
unfolding unlock_each listed
requests_on-unlock_each t res [] lm = refl
requests_on-unlock_each t res (r ∷ todo) lm = ground (
  arith,
  resource_eq_iff r res,
  requests_on-unlock_each t res todo (store_or_erase r (without_txn t (requests_on r lm)) lm),
  requests_on-store r res (without_txn t (requests_on r lm)) lm,
  without_txn_twice t (requests_on res lm),
)

not_listed_requests :
    (t : ℕ) (res : ResourceId) (lm : LockManager)
    → listed res (to_unlock t lm.lock_table) ≡ false
    → mentions t (requests_on res lm) ≡ false
unfolding requests_on mentions
not_listed_requests t res lm h = elim (Option-cases (lookup res lm.lock_table)) [
  | inl e ↦ ground (arith, e)
  | inr (rs, e) ↦ ground (arith, e, not_listed t res lm.lock_table rs e h)
]

-- The wait-for graph does not show in the lock table.
pub requests_on-wait_for :
    (res : ResourceId) (lm : LockManager) (g : WaitFor)
    → requests_on res (record lm { wait_for = g }) ≡ requests_on res lm
unfolding requests_on
requests_on-wait_for res lm g = refl

-- Releasing everything takes exactly the transaction's requests, granted and pending, from every
-- resource, and leaves the others in their order.
pub requests_on-unlock_all :
    (t : ℕ) (res : ResourceId) (lm : LockManager)
    → requests_on res (unlock_all t lm) ≡ without_txn t (requests_on res lm)
unfolding unlock_all
requests_on-unlock_all t res lm =
    requests_on-wait_for res (unlock_each t (to_unlock t lm.lock_table) lm)
      (erase t (unlock_each t (to_unlock t lm.lock_table) lm).wait_for)
    ∙ ground (
      arith,
      requests_on-unlock_each t res (to_unlock t lm.lock_table) lm,
      not_listed_requests t res lm,
      without_txn_absent t (requests_on res lm),
    )
