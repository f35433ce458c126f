-- ===== src/Transaction/Threads.antt =====
-- Interleaved calls of the lock manager (src/transaction/LockManager.cpp): one thread for each
-- transaction, each call and each waking one event, since they run under the manager's mutex.
use my_db.Base.{ℕ, Option, none, some, List, [], ◌∷◌, nat_eq, if◌then◌else◌}
use my_db.Transaction.Requests.{LockMode, shared, exclusive, ResourceId}
use my_db.Transaction.LockManager.{
  LockManager, new_lock_manager, LockOutcome, granted, refused, waiting, lock_shared,
  lock_exclusive, wake, unlock, unlock_all,
}

-- `waits t` is the request on which the thread of `t` is blocked in `cv_.wait`.
pub record System : Type 0 where
  pub manager : LockManager
  pub waits : ℕ → Option (ResourceId × LockMode)

abbrev pub new_system : System
new_system = record { manager = new_lock_manager; waits = λ _. none }

pub data Event : Type 0 where
  lock : LockMode → ℕ → ResourceId → Event
  wake_up : ℕ → Event
  release : ℕ → ResourceId → Event
  release_all : ℕ → Event

abbrev pub set_wait :
    (ℕ → Option (ResourceId × LockMode))
    → ℕ
    → Option (ResourceId × LockMode)
    → ℕ
    → Option (ResourceId × LockMode)
set_wait w t v u = if nat_eq u t then v else w u

unfoldable pub call_lock : LockMode → ℕ → ResourceId → LockManager → LockOutcome × LockManager
call_lock shared t res lm = lock_shared t res lm
call_lock exclusive t res lm = lock_exclusive t res lm

abbrev pub after_call : LockMode → ℕ → ResourceId → System → LockOutcome → LockManager → System
after_call mode t res s granted lm = record s { manager = lm }
after_call mode t res s refused lm = record s { manager = lm }
after_call mode t res s waiting lm = record {
  manager = lm;
  waits = set_wait s.waits t (some (res, mode));
}

-- A thread that is blocked makes no call; one that is not blocked is not woken.
unfoldable pub step : Event → System → System
unfolding call_lock
step (lock mode t res) s = elim (s.waits t) [
  | some _ ↦ s
  | none ↦ let (outcome, lm) = call_lock mode t res s.manager in after_call mode t res s outcome lm
]
step (wake_up t) s = elim (s.waits t) [
  | none ↦ s
  | some (res, mode) ↦ elim (wake mode t res s.manager) [
    | none ↦ s
    | some lm ↦ record { manager = lm; waits = set_wait s.waits t none }
  ]
]
step (release t res) s = elim (s.waits t) [
  | some _ ↦ s
  | none ↦ record s { manager = unlock t res s.manager }
]
step (release_all t) s = elim (s.waits t) [
  | some _ ↦ s
  | none ↦ record s { manager = unlock_all t s.manager }
]

unfoldable pub run : List Event → System → System
run [] s = s
run (e ∷ es) s = run es (step e s)
