-- ===== src/Transaction/Requests.antt =====
-- The requests on one resource: the loops over `requests` in src/transaction/LockManager.cpp.
use my_db.Base.{
  ℕ, ◌≡◌, ◌↔◌, Bool, true, false, not, ◌&&◌, ◌||◌, List, [], ◌∷◌, arith, nat_eq, Eq, if◌then◌else◌,
}
use my_db.Base.Bytes.{Bytes, bytes_eq, bytes_eq_iff}

pub data LockMode : Type 0 where
  shared exclusive : LockMode

abbrev pub is_exclusive : LockMode → Bool
is_exclusive shared = false
is_exclusive exclusive = true

pub record ResourceId : Type 0 where
  pub table_name : Bytes
  pub page_id : ℕ
  pub slot_num : ℕ

abbrev pub resource_eq : ResourceId → ResourceId → Bool
resource_eq a b =
    bytes_eq a.table_name b.table_name && nat_eq a.page_id b.page_id && nat_eq a.slot_num b.slot_num

pub resource_eq_iff : (a b : ResourceId) → (resource_eq a b ≡ true) ↔ (a ≡ b)
resource_eq_iff a b = ground (arith, bytes_eq_iff a.table_name b.table_name)

instance abbrev pub resource_Eq : Eq ResourceId
resource_Eq = record { equal = resource_eq; equal_iff = resource_eq_iff }

pub record LockRequest : Type 0 where
  pub txn_id : ℕ
  pub mode : LockMode
  pub granted : Bool

-- The transaction holds a lock on the resource.
unfoldable pub holds : ℕ → List LockRequest → Bool
holds t [] = false
holds t (r ∷ rs) = nat_eq r.txn_id t && r.granted || holds t rs

unfoldable pub holds_exclusive : ℕ → List LockRequest → Bool
holds_exclusive t [] = false
holds_exclusive t (r ∷ rs) =
    nat_eq r.txn_id t && r.granted && is_exclusive r.mode || holds_exclusive t rs

-- Another transaction holds an exclusive lock.
unfoldable pub blocks_shared : ℕ → List LockRequest → Bool
blocks_shared t [] = false
blocks_shared t (r ∷ rs) =
    not (nat_eq r.txn_id t) && is_exclusive r.mode && r.granted || blocks_shared t rs

-- Another transaction holds a lock.
unfoldable pub blocks_exclusive : ℕ → List LockRequest → Bool
blocks_exclusive t [] = false
blocks_exclusive t (r ∷ rs) = not (nat_eq r.txn_id t) && r.granted || blocks_exclusive t rs

-- The transaction's first pending request becomes granted.
unfoldable pub grant_first : ℕ → List LockRequest → List LockRequest
grant_first t [] = []
grant_first t (r ∷ rs) =
    if nat_eq r.txn_id t && not r.granted
    then record r { granted = true } ∷ rs
    else r ∷ grant_first t rs

-- `unlock`: the transaction's first granted request goes.
unfoldable pub erase_granted : ℕ → List LockRequest → List LockRequest
erase_granted t [] = []
erase_granted t (r ∷ rs) = if nat_eq r.txn_id t && r.granted then rs else r ∷ erase_granted t rs

-- `unlockAll`: `remove_if` of the transaction's requests, granted and pending.
unfoldable pub without_txn : ℕ → List LockRequest → List LockRequest
without_txn t [] = []
without_txn t (r ∷ rs) = let rest = without_txn t rs in if nat_eq r.txn_id t then rest else r ∷ rest

unfoldable pub mentions : ℕ → List LockRequest → Bool
mentions t [] = false
mentions t (r ∷ rs) = nat_eq r.txn_id t || mentions t rs
