-- ===== src/Transaction/Deadlock/Sound.antt =====
-- The search of src/transaction/LockManager.cpp where it reports a deadlock.
use my_db.Base.{
  member, member-erase_id, ℕ, zero, suc, ◌≡◌, Bool, true, false, not, ◌&&◌, List, [], ◌∷◌, arith,
  length, nat_eq, nat_eq_iff, Bool-cases, inl, inr,
}
use mathlib.Core.Path.{subst}
use my_db.Transaction.Deadlock.{
  insert_id, WaitFor, neighbours, Search, visit_neighbours, detect_cycle, has_deadlock,
}
use my_db.Transaction.Deadlock.Cycles.{
  Edge, Reach, here, next, Reach-trans, Cycle, Sub, member-insert_id,
}

-- The stack leads to the transaction that is searched.
abbrev LeadsTo : WaitFor → List ℕ → ℕ → Type 0
LeadsTo g stack t = (x : ℕ) → member x stack ≡ true → Reach g x t

record IsSound (g : WaitFor) (t : ℕ) (s : Search) (r : Bool × Search) : Type 0 where
  found : r.0 ≡ true → Cycle g t
  kept : r.0 ≡ false → Sub r.1.in_stack s.in_stack

Cycle-Edge : {g : WaitFor} {t n : ℕ} → Edge g t n → Cycle g n → Cycle g t
Cycle-Edge e c = record {
  on = c.on;
  after = c.after;
  reached = Reach-trans (next here e) c.reached;
  leaves = c.leaves;
  returns = c.returns;
}

module _ (g : WaitFor) (t : ℕ) (go : ℕ → Search → Bool × Search)
    (sound : (n : ℕ) (s : Search) → LeadsTo g s.in_stack n → IsSound g n s (go n s)) where
  visit-IsSound :
      (ns : List ℕ) (s : Search)
      → ((n : ℕ) → member n ns ≡ true → Edge g t n)
      → LeadsTo g s.in_stack t
      → IsSound g t s (visit_neighbours go ns s)
  unfolding visit_neighbours member
  visit-IsSound [] s edges lead = record { found = λ h. absurd (ground arith); kept = λ _ x m. m }
  visit-IsSound (n ∷ ns) s edges lead =
      let edge : Edge g t n = edges n (ground (arith, nat_eq_iff n n)) in
      let rest : (m : ℕ) → member m ns ≡ true → Edge g t m = λ m h. edges m (ground arith) in
      elim (Bool-cases (member n s.in_stack)) [
        | inl back ↦
            rw (back, visit_neighbours)
              (record {
                found = λ _. record {
                  on = t;
                  after = n;
                  reached = here;
                  leaves = edge;
                  returns = lead n back;
                };
                kept = λ h. absurd (ground arith);
              })
        | inr new ↦ elim (Bool-cases (member n s.visited)) [
          | inl old ↦ rw (new, old, visit_neighbours) (rw old (visit-IsSound ns s rest lead))
          | inr fresh ↦
              let one = sound n s (λ x m. next (lead x m) edge) in
              elim (Bool-cases (go n s).0) [
                | inl found ↦
                    rw (new, fresh, found, visit_neighbours)
                      (rw fresh (record {
                        found = λ _. Cycle-Edge edge (one.found found);
                        kept = λ h. absurd (ground arith);
                      }))
                | inr none_found ↦
                    let more =
                      visit-IsSound ns (go n s).1 rest (λ x m. lead x (one.kept none_found x m)) in
                    rw (new, fresh, none_found, visit_neighbours)
                      (rw fresh (record {
                        found = more.found;
                        kept = λ h x m. one.kept none_found x (more.kept h x m);
                      }))
              ]
        ]
      ]

detect_cycle-IsSound :
    (g : WaitFor) (fuel t : ℕ) (s : Search)
    → LeadsTo g s.in_stack t
    → IsSound g t s (detect_cycle g fuel t s)
unfolding detect_cycle
detect_cycle-IsSound g zero t s lead = record {
  found = λ h. absurd (ground arith);
  kept = λ _ x m. m;
}
detect_cycle-IsSound g (suc fuel) t s lead =
    let s₀ : Search = record {
      visited = insert_id t s.visited;
      in_stack = insert_id t s.in_stack;
    } in
    let lead₀ : LeadsTo g s₀.in_stack t = λ x m. lead_insert x m in
    let loop =
      visit-IsSound g t (λ n s₁. detect_cycle g fuel n s₁)
        (λ n s₁. detect_cycle-IsSound g fuel n s₁) (neighbours g t) s₀ (λ n m. m) lead₀ in
    elim (Bool-cases (visit_neighbours (λ n s₁. detect_cycle g fuel n s₁) (neighbours g t) s₀).0) [
      | inl found ↦
          rw (found, detect_cycle)
            (record { found = λ _. loop.found found; kept = λ h. absurd (ground arith) })
      | inr none_found ↦
          rw (none_found, detect_cycle)
            (record {
              found = λ h. absurd (ground arith);
              kept = λ _ x m. dropped x (rw member-erase_id at m) (loop.kept none_found x);
            })
    ]
  where
    lead_insert : (x : ℕ) → member x (insert_id t s.in_stack) ≡ true → Reach g x t
    lead_insert x m = elim (Bool-cases (nat_eq t x)) [
      | inl e ↦ subst (λ z. Reach g z t) ((nat_eq_iff t x).0 e) here
      | inr e ↦ lead x (ground (arith, member-insert_id x t s.in_stack))
    ]

    dropped :
        {b : Bool} (x : ℕ)
        → (not (nat_eq t x) && b) ≡ true
        → (b ≡ true → member x (insert_id t s.in_stack) ≡ true)
        → member x s.in_stack ≡ true
    dropped {b} x m k = ground (arith, member-insert_id x t s.in_stack)

-- A search that reports a deadlock has found transactions that wait for each other in a circle, to
-- which the asking transaction's waiting leads.
pub has_deadlock-Cycle : (g : WaitFor) (t : ℕ) → has_deadlock g t ≡ true → Cycle g t
unfolding has_deadlock member
has_deadlock-Cycle g t h =
    (detect_cycle-IsSound g (suc (length g)) t (record { visited = []; in_stack = [] })
        (λ x m. absurd (ground arith))).found
      h
