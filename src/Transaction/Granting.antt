-- ===== src/Transaction/Granting.antt =====
-- Waking a waiting call, and the pending requests (src/transaction/LockManager.cpp).
use my_db.Base.{
  ℕ, ◌≡◌, refl, Bool, true, false, not, ◌&&◌, ◌||◌, some, List, [], ◌∷◌, ◌++◌, arith, nat_eq,
  nat_eq_iff,
}
use my_db.Transaction.Requests.{
  LockMode, shared, exclusive, is_exclusive, ResourceId, resource_eq, LockRequest, blocks_shared,
  blocks_exclusive, grant_first, erase_granted, without_txn,
}
use my_db.Transaction.LockManager.{is_blocked}
use my_db.Transaction.Compatible.{
  ok_with, compatible, Waits, mode_eq, is_waiting_for, consistent, none_pending,
}

-- Each pending request of the transaction has the mode.
unfoldable pub pending_are : ℕ → LockMode → List LockRequest → Bool
pending_are t mode [] = true
pending_are t mode (r ∷ rs) =
    (r.granted || not (nat_eq r.txn_id t) || mode_eq mode r.mode) && pending_are t mode rs

pub consistent-pending_are :
    (w : Waits) (res : ResourceId) (t : ℕ) (mode : LockMode) (rs : List LockRequest)
    → consistent w res rs ≡ true
    → w t ≡ some (res, mode)
    → pending_are t mode rs ≡ true
unfolding consistent pending_are
consistent-pending_are w res t mode [] c h = refl
consistent-pending_are w res t mode (r ∷ rs) c h =
    ground (arith, nat_eq_iff r.txn_id t, consistent-pending_are w res t mode rs)

abbrev compatible_with_grant : LockMode → ℕ → LockRequest → Bool
compatible_with_grant mode t r =
    nat_eq r.txn_id t || not r.granted || not (is_exclusive r.mode) && not (is_exclusive mode)

ok_with-grant_first :
    (mode : LockMode) (t : ℕ) (r : LockRequest) (rs : List LockRequest)
    → ok_with r rs ≡ true
    → compatible_with_grant mode t r ≡ true
    → pending_are t mode rs ≡ true
    → ok_with r (grant_first t rs) ≡ true
unfolding ok_with grant_first pending_are
ok_with-grant_first mode t r [] h k p = refl
ok_with-grant_first shared t r (s ∷ rs) h k p = ground (arith, ok_with-grant_first shared t r rs)
ok_with-grant_first exclusive t r (s ∷ rs) h k p =
    ground (arith, ok_with-grant_first exclusive t r rs)

-- The granted request agrees with what stands behind it.
ok_with-granted :
    (mode : LockMode) (t : ℕ) (r : LockRequest) (rs : List LockRequest)
    → r.txn_id ≡ t
    → mode_eq mode r.mode ≡ true
    → ok_with r rs ≡ true
    → is_blocked mode t rs ≡ false
    → ok_with (record r { granted = true }) rs ≡ true
unfolding ok_with is_blocked blocks_shared blocks_exclusive
ok_with-granted mode t r [] e m h b = refl
ok_with-granted shared t r (s ∷ rs) e m h b = ground (arith, ok_with-granted shared t r rs)
ok_with-granted exclusive t r (s ∷ rs) e m h b = ground (arith, ok_with-granted exclusive t r rs)

pub compatible-grant_first :
    (mode : LockMode) (t : ℕ) (rs : List LockRequest)
    → compatible rs ≡ true
    → pending_are t mode rs ≡ true
    → is_blocked mode t rs ≡ false
    → compatible (grant_first t rs) ≡ true
unfolding compatible grant_first pending_are is_blocked blocks_shared blocks_exclusive
compatible-grant_first mode t [] c p b = refl
compatible-grant_first shared t (r ∷ rs) c p b = ground (
  arith,
  nat_eq_iff r.txn_id t,
  ok_with-grant_first shared t r rs,
  ok_with-granted shared t r rs,
  compatible-grant_first shared t rs,
)
compatible-grant_first exclusive t (r ∷ rs) c p b = ground (
  arith,
  nat_eq_iff r.txn_id t,
  ok_with-grant_first exclusive t r rs,
  ok_with-granted exclusive t r rs,
  compatible-grant_first exclusive t rs,
)

none_pending-ok_with :
    (r : LockRequest) (rs : List LockRequest)
    → r.granted ≡ false
    → ok_with r rs ≡ true
    → none_pending r.txn_id rs ≡ true
unfolding ok_with none_pending
none_pending-ok_with r [] g h = refl
none_pending-ok_with r (s ∷ rs) g h = ground (arith, none_pending-ok_with r rs)

-- The transaction had one pending request at most.
pub none_pending-grant_first :
    (t : ℕ) (rs : List LockRequest)
    → compatible rs ≡ true
    → none_pending t (grant_first t rs) ≡ true
unfolding compatible grant_first none_pending
none_pending-grant_first t [] c = refl
none_pending-grant_first t (r ∷ rs) c =
    ground (arith, nat_eq_iff r.txn_id t, none_pending-ok_with r rs, none_pending-grant_first t rs)

-- A change of what one transaction waits for, where none of its requests is pending.
pub consistent-frame :
    (w v : Waits) (res : ResourceId) (t : ℕ) (rs : List LockRequest)
    → ((u : ℕ) → nat_eq u t ≡ false → v u ≡ w u)
    → none_pending t rs ≡ true
    → consistent w res rs ≡ true
    → consistent v res rs ≡ true
unfolding consistent none_pending
consistent-frame w v res t [] same p c = refl
consistent-frame w v res t (r ∷ rs) same p c =
    ground (arith, same r.txn_id, consistent-frame w v res t rs same)

pub consistent-append :
    (w : Waits) (res : ResourceId) (x : LockRequest) (rs : List LockRequest)
    → consistent w res rs ≡ true
    → (x.granted || is_waiting_for res x.mode (w x.txn_id)) ≡ true
    → consistent w res (rs ++ x ∷ []) ≡ true
unfolding consistent
consistent-append w res x [] c h = ground arith
consistent-append w res x (r ∷ rs) c h = ground (arith, consistent-append w res x rs)

pub consistent-grant_first :
    (w : Waits) (res : ResourceId) (t : ℕ) (rs : List LockRequest)
    → consistent w res rs ≡ true
    → consistent w res (grant_first t rs) ≡ true
unfolding consistent grant_first
consistent-grant_first w res t [] c = refl
consistent-grant_first w res t (r ∷ rs) c = ground (arith, consistent-grant_first w res t rs)

pub consistent-erase_granted :
    (w : Waits) (res : ResourceId) (t : ℕ) (rs : List LockRequest)
    → consistent w res rs ≡ true
    → consistent w res (erase_granted t rs) ≡ true
unfolding consistent erase_granted
consistent-erase_granted w res t [] c = refl
consistent-erase_granted w res t (r ∷ rs) c = ground (arith, consistent-erase_granted w res t rs)

pub consistent-without_txn :
    (w : Waits) (res : ResourceId) (t : ℕ) (rs : List LockRequest)
    → consistent w res rs ≡ true
    → consistent w res (without_txn t rs) ≡ true
unfolding consistent without_txn
consistent-without_txn w res t [] c = refl
consistent-without_txn w res t (r ∷ rs) c = ground (arith, consistent-without_txn w res t rs)

-- A transaction that waits on one resource has nothing pending on another.
pub consistent-elsewhere :
    (w : Waits) (res other : ResourceId) (t : ℕ) (mode : LockMode) (rs : List LockRequest)
    → consistent w other rs ≡ true
    → w t ≡ some (res, mode)
    → resource_eq res other ≡ false
    → none_pending t rs ≡ true
unfolding consistent none_pending
consistent-elsewhere w res other t mode [] c h ne = refl
consistent-elsewhere w res other t mode (r ∷ rs) c h ne =
    ground (arith, nat_eq_iff r.txn_id t, consistent-elsewhere w res other t mode rs)
