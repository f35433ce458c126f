-- ===== src/Transaction/Interleaving.antt =====
-- Interleavings of the calls of src/transaction/LockManager.cpp, event by event.
use my_db.Base.{
  ◌<◌, nat_Eq, ℕ, suc, zero, ◌≡◌, ◌≢◌, refl, true, none, some, List, [], ◌∷◌, arith, nat_eq_iff,
  get_elem?, Bool-cases, Option-cases, inl, inr,
}
use my_db.Base.Map.{erase, lookup}
use my_db.Transaction.Requests.{
  LockMode, shared, exclusive, ResourceId, LockRequest, holds, holds_exclusive,
}
use my_db.Transaction.LockManager.{requests_on, lock_shared, lock_exclusive, is_blocked, wake}
use my_db.Transaction.Compatible.{pair_ok, ok_with, compatible, consistent}
use my_db.Transaction.Threads.{
  System, new_system, Event, lock, wake_up, release, release_all, set_wait, call_lock, after_call,
  step, run,
}
use my_db.Transaction.Safety.{
  IsSafe, grant_or_wait-IsSafe, woken-IsSafe, unlock-IsSafe, unlock_all-IsSafe,
}

call_lock-IsSafe :
    (s : System) (mode : LockMode) (t : ℕ) (res : ResourceId)
    → IsSafe s
    → s.waits t ≡ none
    → IsSafe (
        after_call mode t res s
          (call_lock mode t res s.manager).0
          (call_lock mode t res s.manager).1)
unfolding call_lock lock_shared lock_exclusive is_blocked
call_lock-IsSafe s shared t res h free = elim (Bool-cases (holds t (requests_on res s.manager))) [
  | inl held ↦ rw held h
  | inr new ↦ rw new (grant_or_wait-IsSafe s h shared t res free)
]
call_lock-IsSafe s exclusive t res h free =
    elim (Bool-cases (holds_exclusive t (requests_on res s.manager))) [
      | inl held ↦ rw held h
      | inr new ↦ rw new (grant_or_wait-IsSafe s h exclusive t res free)
    ]

wake-IsSafe :
    (s : System) (mode : LockMode) (t : ℕ) (res : ResourceId)
    → IsSafe s
    → s.waits t ≡ some (res, mode)
    → IsSafe (elim (wake mode t res s.manager) [
      | none ↦ s
      | some lm ↦ record { manager = lm; waits = set_wait s.waits t none }
    ])
unfolding wake
wake-IsSafe s mode t res h waits =
    elim (Bool-cases (is_blocked mode t (requests_on res s.manager))) [
      | inl blocked ↦ rw blocked h
      | inr free ↦ rw free (woken-IsSafe s h mode t res (erase t s.manager.wait_for) waits free)
    ]

step-IsSafe : (e : Event) (s : System) → IsSafe s → IsSafe (step e s)
unfolding step
step-IsSafe (lock mode t res) s h = elim (Option-cases (s.waits t)) [
  | inl free ↦ rw (free, step) (call_lock-IsSafe s mode t res h free)
  | inr (x, busy) ↦ rw (busy, step) h
]
step-IsSafe (wake_up t) s h = elim (Option-cases (s.waits t)) [
  | inl free ↦ rw (free, step) h
  | inr ((res, mode), busy) ↦ rw (busy, step) (wake-IsSafe s mode t res h busy)
]
step-IsSafe (release t res) s h = elim (Option-cases (s.waits t)) [
  | inl free ↦ rw (free, step) (unlock-IsSafe s h shared t res)
  | inr (x, busy) ↦ rw (busy, step) h
]
step-IsSafe (release_all t) s h = elim (Option-cases (s.waits t)) [
  | inl free ↦ rw (free, step) (unlock_all-IsSafe s t h)
  | inr (x, busy) ↦ rw (busy, step) h
]

run-IsSafe : (es : List Event) (s : System) → IsSafe s → IsSafe (run es s)
unfolding run
run-IsSafe [] s h = h
run-IsSafe (e ∷ es) s h = run-IsSafe es (step e s) (step-IsSafe e s h)

new_system-IsSafe : IsSafe new_system
unfolding requests_on lookup compatible consistent
new_system-IsSafe = record { on = λ res. record { fit = refl; known = refl } }

ok_with-at :
    (r : LockRequest) (rs : List LockRequest) (j : ℕ) {q : LockRequest}
    → ok_with r rs ≡ true
    → get_elem? rs j ≡ some q
    → pair_ok r q ≡ true
unfolding ok_with
ok_with-at r [] j h e = absurd (ground arith)
ok_with-at r (s ∷ rs) zero h e = ground arith
ok_with-at r (s ∷ rs) (suc j) h e = ok_with-at r rs j (ground arith) e

compatible-at :
    (rs : List LockRequest) (i j : ℕ) {r q : LockRequest}
    → compatible rs ≡ true
    → i < j
    → get_elem? rs i ≡ some r
    → get_elem? rs j ≡ some q
    → pair_ok r q ≡ true
unfolding compatible
compatible-at [] i j h lt e f = absurd (ground arith)
compatible-at (s ∷ rs) zero zero h lt e f = absurd (omega arith)
compatible-at (s ∷ rs) zero (suc j) {r} {q} h lt e f =
    let p : pair_ok s q ≡ true = ok_with-at s rs j (ground arith) f in ground arith
compatible-at (s ∷ rs) (suc i) zero h lt e f = absurd (omega arith)
compatible-at (s ∷ rs) (suc i) (suc j) h lt e f =
    compatible-at rs i j (ground arith) (omega arith) e f

-- Whatever the interleaving of calls and wakings from the start: of two locks that different
-- transactions hold on one resource, both are shared.
pub run-exclusion :
    (es : List Event) (res : ResourceId) (i j : ℕ) {r q : LockRequest}
    → i < j
    → get_elem? (requests_on res (run es new_system).manager) i ≡ some r
    → get_elem? (requests_on res (run es new_system).manager) j ≡ some q
    → r.granted ≡ true
    → q.granted ≡ true
    → r.txn_id ≢ q.txn_id
    → (r.mode ≡ shared) × (q.mode ≡ shared)
run-exclusion es res i j {r} {q} lt e f gr gq ne =
    let ok =
      compatible-at (requests_on res (run es new_system).manager) i j
        ((run-IsSafe es new_system new_system-IsSafe).on res).fit lt e f in
    ground (arith, nat_eq_iff r.txn_id q.txn_id)
