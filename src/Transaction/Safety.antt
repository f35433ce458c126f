-- ===== src/Transaction/Safety.antt =====
-- The invariant of the locks and the waiting threads, and each change of the request lists of
-- src/transaction/LockManager.cpp.
use my_db.Base.{
  nat_Eq, ℕ, ◌≡◌, refl, Bool, true, false, Option, none, some, List, [], ◌∷◌, ◌++◌, arith, nat_eq,
  nat_eq_iff, Bool-cases, inl, inr, if◌then◌else◌,
}
use my_db.Base.Map.{erase}
use my_db.Transaction.Requests.{
  LockMode, ResourceId, resource_eq, resource_eq_iff, LockRequest, grant_first, erase_granted,
}
use my_db.Transaction.Deadlock.{WaitFor, has_deadlock}
use my_db.Transaction.LockManager.{
  LockManager, requests_on, put_requests, add_waits, grant_or_wait, is_blocked, unlock, unlock_all,
}
use my_db.Transaction.Tables.{
  requests_on-put, requests_on-unlock, requests_on-unlock_all, requests_on-wait_for,
}
use my_db.Transaction.Compatible.{
  compatible, Waits, is_waiting_for, consistent, consistent-none_pending, compatible-grant,
  compatible-wait, compatible-erase_granted, compatible-without_txn,
}
use my_db.Transaction.Granting.{
  consistent-pending_are, compatible-grant_first, none_pending-grant_first, consistent-frame,
  consistent-append, consistent-grant_first, consistent-erase_granted, consistent-without_txn,
  consistent-elsewhere,
}
use my_db.Transaction.Threads.{System, set_wait, after_call}

-- The requests on a resource fit each other and the waiting threads.
pub record IsSafeOn (w : Waits) (res : ResourceId) (rs : List LockRequest) : Type 0 where
  pub fit : compatible rs ≡ true
  pub known : consistent w res rs ≡ true

pub record IsSafe (s : System) : Type 0 where
  pub on : (res : ResourceId) → IsSafeOn s.waits res (requests_on res s.manager)

IsSafeOn-if :
    (w : Waits) (res : ResourceId) (b : Bool) (xs ys : List LockRequest)
    → (b ≡ true → IsSafeOn w res xs)
    → (b ≡ false → IsSafeOn w res ys)
    → IsSafeOn w res (if b then xs else ys)
IsSafeOn-if w res true xs ys h k = h refl
IsSafeOn-if w res false xs ys h k = k refl

set_wait-ne :
    (w : Waits) (t : ℕ) (v : Option (ResourceId × LockMode)) (u : ℕ)
    → nat_eq u t ≡ false
    → set_wait w t v u ≡ w u
set_wait-ne w t v u h = rw h

set_wait_self : (w : Waits) (t : ℕ) (v : Option (ResourceId × LockMode)) → set_wait w t v t ≡ v
set_wait_self w t v = ground (arith, nat_eq_iff t t)

-- A step that changes the requests on one resource only.
one-IsSafe :
    (s : System) (lm : LockManager) (w : Waits) (res : ResourceId) (rs : List LockRequest)
    → ((other : ResourceId)
        → requests_on other lm
          ≡ (if resource_eq res other then rs else requests_on other s.manager))
    → IsSafeOn w res rs
    → ((other : ResourceId)
        → resource_eq res other ≡ false
        → IsSafeOn w other (requests_on other s.manager))
    → IsSafe (record { manager = lm; waits = w })
one-IsSafe s lm w res rs after here elsewhere = record {
  on = λ other. rw (after other) (
      IsSafeOn-if w other (resource_eq res other) rs (requests_on other s.manager)
        (λ e. rw (← (resource_eq_iff res other).0 e) here) (elsewhere other));
}

abbrev new_request : ℕ → LockMode → Bool → LockRequest
new_request t mode g = record { txn_id = t; mode = mode; granted = g }

module _ (s : System) (h : IsSafe s) (mode : LockMode) (t : ℕ) (res : ResourceId) where
  abbrev on_res : List LockRequest
  on_res = requests_on res s.manager

  granted-IsSafe :
      is_blocked mode t on_res ≡ false
      → IsSafe (record s {
        manager = put_requests res (on_res ++ new_request t mode true ∷ []) s.manager;
      })
  granted-IsSafe b =
      one-IsSafe s _ s.waits res (on_res ++ new_request t mode true ∷ [])
        (λ other. requests_on-put res other _ s.manager)
        (record {
          fit = compatible-grant t mode on_res (h.on res).fit b;
          known =
              consistent-append s.waits res (new_request t mode true) on_res (h.on res).known refl;
        })
        (λ other _. h.on other)

  -- The thread that starts to wait had nothing pending.
  start-IsSafeOn :
      (other : ResourceId)
      → s.waits t ≡ none
      → IsSafeOn (set_wait s.waits t (some (res, mode))) other (requests_on other s.manager)
  start-IsSafeOn other free = record {
    fit = (h.on other).fit;
    known =
        consistent-frame s.waits _ other t (requests_on other s.manager)
          (set_wait-ne s.waits t (some (res, mode)))
          (consistent-none_pending s.waits other t _ (h.on other).known free) (h.on other).known;
  }

  waits_here : is_waiting_for res mode (set_wait s.waits t (some (res, mode)) t) ≡ true
  waits_here =
      rw (set_wait_self s.waits t (some (res, mode))) (ground (arith, resource_eq_iff res res))

  waiting-IsSafe :
      (g : WaitFor)
      → s.waits t ≡ none
      → IsSafe (record {
        manager =
            put_requests res
              (on_res ++ new_request t mode false ∷ [])
              (record s.manager { wait_for = g });
        waits = set_wait s.waits t (some (res, mode));
      })
  unfolding requests_on
  waiting-IsSafe g free =
      one-IsSafe s _ _ res (on_res ++ new_request t mode false ∷ [])
        (λ other. requests_on-put res other _ (record s.manager { wait_for = g }))
        (record {
          fit =
              compatible-wait t mode on_res (h.on res).fit
                (consistent-none_pending s.waits res t on_res (h.on res).known free);
          known =
              consistent-append (set_wait s.waits t (some (res, mode))) res
                (new_request t mode false) on_res (start-IsSafeOn res free).known waits_here;
        })
        (λ other _. start-IsSafeOn other free)

  refused-IsSafe : (g : WaitFor) → IsSafe (record s { manager = record s.manager { wait_for = g } })
  unfolding requests_on
  refused-IsSafe g = record { on = h.on }

  -- Both calls, behind their first test.
  pub grant_or_wait-IsSafe :
      s.waits t ≡ none
      → IsSafe (
          after_call mode t res s
            (grant_or_wait t mode res (is_blocked mode t on_res) s.manager).0
            (grant_or_wait t mode res (is_blocked mode t on_res) s.manager).1)
  unfolding grant_or_wait
  grant_or_wait-IsSafe free = elim (Bool-cases (is_blocked mode t on_res)) [
    | inr free_now ↦ rw free_now (granted-IsSafe free_now)
    | inl blocked ↦
        let g = add_waits t on_res s.manager.wait_for in
        elim (Bool-cases (has_deadlock g t)) [
          | inl cycle ↦ rw (blocked, cycle) (refused-IsSafe (erase t g))
          | inr fine ↦ rw (blocked, fine) (waiting-IsSafe g free)
        ]
  ]

  -- After the waking the transaction waits for nothing.
  pub woken-IsSafe :
      (g : WaitFor)
      → s.waits t ≡ some (res, mode)
      → is_blocked mode t on_res ≡ false
      → IsSafe (record {
        manager = record (put_requests res (grant_first t on_res) s.manager) { wait_for = g };
        waits = set_wait s.waits t none;
      })
  woken-IsSafe g waits free =
      one-IsSafe s _ _ res (grant_first t on_res)
        (λ other.
          rw requests_on-wait_for (requests_on-put res other (grant_first t on_res) s.manager))
        (record {
          fit =
              compatible-grant_first mode t on_res (h.on res).fit
                (consistent-pending_are s.waits res t mode on_res (h.on res).known waits) free;
          known =
              consistent-frame s.waits _ res t (grant_first t on_res) (set_wait-ne s.waits t none)
                (none_pending-grant_first t on_res (h.on res).fit)
                (consistent-grant_first s.waits res t on_res (h.on res).known);
        })
        (λ other ne. record {
          fit = (h.on other).fit;
          known =
              consistent-frame s.waits _ other t (requests_on other s.manager)
                (set_wait-ne s.waits t none)
                (consistent-elsewhere s.waits res other t mode _ (h.on other).known waits ne)
                (h.on other).known;
        })

  pub unlock-IsSafe : IsSafe (record s { manager = unlock t res s.manager })
  unlock-IsSafe =
      one-IsSafe s _ s.waits res (erase_granted t on_res)
        (λ other. requests_on-unlock t res other s.manager)
        (record {
          fit = compatible-erase_granted t on_res (h.on res).fit;
          known = consistent-erase_granted s.waits res t on_res (h.on res).known;
        })
        (λ other _. h.on other)

pub unlock_all-IsSafe :
    (s : System) (t : ℕ) → IsSafe s → IsSafe (record s { manager = unlock_all t s.manager })
unlock_all-IsSafe s t h = record {
  on = λ res. rw (requests_on-unlock_all t res s.manager) (record {
    fit = compatible-without_txn t _ (h.on res).fit;
    known = consistent-without_txn s.waits res t _ (h.on res).known;
  });
}
