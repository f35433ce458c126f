-- ===== src/Transaction/Compatible.antt =====
-- Compatible requests on one resource (src/transaction/LockManager.cpp).
use my_db.Base.{
  ℕ, ◌≡◌, refl, Bool, true, false, not, ◌&&◌, ◌||◌, Option, none, some, List, [], ◌∷◌, ◌++◌, arith,
  nat_eq, nat_eq_iff,
}
use my_db.Transaction.Requests.{
  LockMode, shared, exclusive, is_exclusive, ResourceId, resource_eq, LockRequest, blocks_shared,
  blocks_exclusive, erase_granted, without_txn,
}
use my_db.Transaction.LockManager.{is_blocked}

-- Two requests of different transactions are granted together only if both are shared, and a
-- transaction has one pending request at most.
abbrev pub pair_ok : LockRequest → LockRequest → Bool
pair_ok r s =
    (nat_eq r.txn_id s.txn_id
      || not r.granted
      || not s.granted
      || not (is_exclusive r.mode) && not (is_exclusive s.mode))
    && (r.granted || s.granted || not (nat_eq r.txn_id s.txn_id))

unfoldable pub ok_with : LockRequest → List LockRequest → Bool
ok_with r [] = true
ok_with r (s ∷ rs) = pair_ok r s && ok_with r rs

unfoldable pub compatible : List LockRequest → Bool
compatible [] = true
compatible (r ∷ rs) = ok_with r rs && compatible rs

-- Every pending request is of a transaction that waits here, in that mode.
abbrev pub Waits : Type 0
Waits = ℕ → Option (ResourceId × LockMode)

abbrev pub mode_eq : LockMode → LockMode → Bool
mode_eq shared shared = true
mode_eq exclusive exclusive = true
mode_eq _ _ = false

abbrev pub is_waiting_for : ResourceId → LockMode → Option (ResourceId × LockMode) → Bool
is_waiting_for res mode none = false
is_waiting_for res mode (some (r, m)) = resource_eq r res && mode_eq m mode

unfoldable pub consistent : Waits → ResourceId → List LockRequest → Bool
consistent w res [] = true
consistent w res (r ∷ rs) =
    (r.granted || is_waiting_for res r.mode (w r.txn_id)) && consistent w res rs

-- No request of the transaction is pending.
unfoldable pub none_pending : ℕ → List LockRequest → Bool
none_pending t [] = true
none_pending t (r ∷ rs) = (r.granted || not (nat_eq r.txn_id t)) && none_pending t rs

pub consistent-none_pending :
    (w : Waits) (res : ResourceId) (t : ℕ) (rs : List LockRequest)
    → consistent w res rs ≡ true
    → w t ≡ none
    → none_pending t rs ≡ true
unfolding consistent none_pending
consistent-none_pending w res t [] c h = refl
consistent-none_pending w res t (r ∷ rs) c h =
    ground (arith, nat_eq_iff r.txn_id t, consistent-none_pending w res t rs)

ok_with-append :
    (r x : LockRequest) (rs : List LockRequest)
    → ok_with r rs ≡ true
    → pair_ok r x ≡ true
    → ok_with r (rs ++ x ∷ []) ≡ true
unfolding ok_with
ok_with-append r x [] h k = ground arith
ok_with-append r x (s ∷ rs) h k = ground (arith, ok_with-append r x rs)

-- A granted request that nothing blocks.
pub compatible-grant :
    (t : ℕ) (mode : LockMode) (rs : List LockRequest)
    → compatible rs ≡ true
    → is_blocked mode t rs ≡ false
    → compatible (rs ++ record { txn_id = t; mode = mode; granted = true } ∷ []) ≡ true
unfolding compatible ok_with is_blocked blocks_shared blocks_exclusive
compatible-grant t mode [] c h = refl
compatible-grant t shared (r ∷ rs) c h = ground (
  arith,
  ok_with-append r (record { txn_id = t; mode = shared; granted = true }) rs,
  compatible-grant t shared rs,
)
compatible-grant t exclusive (r ∷ rs) c h = ground (
  arith,
  ok_with-append r (record { txn_id = t; mode = exclusive; granted = true }) rs,
  compatible-grant t exclusive rs,
)

-- A pending request of a transaction with none.
pub compatible-wait :
    (t : ℕ) (mode : LockMode) (rs : List LockRequest)
    → compatible rs ≡ true
    → none_pending t rs ≡ true
    → compatible (rs ++ record { txn_id = t; mode = mode; granted = false } ∷ []) ≡ true
unfolding compatible ok_with none_pending
compatible-wait t mode [] c h = refl
compatible-wait t mode (r ∷ rs) c h = ground (
  arith,
  ok_with-append r (record { txn_id = t; mode = mode; granted = false }) rs,
  compatible-wait t mode rs,
)

ok_with-erase_granted :
    (t : ℕ) (r : LockRequest) (rs : List LockRequest)
    → ok_with r rs ≡ true
    → ok_with r (erase_granted t rs) ≡ true
unfolding ok_with erase_granted
ok_with-erase_granted t r [] h = refl
ok_with-erase_granted t r (s ∷ rs) h = ground (arith, ok_with-erase_granted t r rs)

pub compatible-erase_granted :
    (t : ℕ) (rs : List LockRequest) → compatible rs ≡ true → compatible (erase_granted t rs) ≡ true
unfolding compatible erase_granted
compatible-erase_granted t [] h = refl
compatible-erase_granted t (r ∷ rs) h =
    ground (arith, ok_with-erase_granted t r rs, compatible-erase_granted t rs)

ok_with-without_txn :
    (t : ℕ) (r : LockRequest) (rs : List LockRequest)
    → ok_with r rs ≡ true
    → ok_with r (without_txn t rs) ≡ true
unfolding ok_with without_txn
ok_with-without_txn t r [] h = refl
ok_with-without_txn t r (s ∷ rs) h = ground (arith, ok_with-without_txn t r rs)

pub compatible-without_txn :
    (t : ℕ) (rs : List LockRequest) → compatible rs ≡ true → compatible (without_txn t rs) ≡ true
unfolding compatible without_txn
compatible-without_txn t [] h = refl
compatible-without_txn t (r ∷ rs) h =
    ground (arith, ok_with-without_txn t r rs, compatible-without_txn t rs)
