-- ===== src/Transaction/Deadlock/Complete.antt =====
-- The search of src/transaction/LockManager.cpp where it reports none: the paths from the
-- transaction. The entries of the graph that are not yet visited bound the depth of the calls.
use my_db.Base.{
  member, erase_id, member-erase_id, nat_Eq, ℕ, zero, suc, ◌<◌, ◌≡◌, refl, ◌∙◌, ◌↔◌, Bool, true,
  false, none, List, [], ◌∷◌, arith, length, nat_eq, nat_eq_iff, Bool-cases, Option-cases, inl, inr,
}
use mathlib.Core.Path.{subst}
use my_db.Base.Map.{lookup}
use my_db.Transaction.Deadlock.{
  insert_id, WaitFor, neighbours, Search, visit_neighbours, detect_cycle, has_deadlock,
}
use my_db.Transaction.Deadlock.Sound.{has_deadlock-Cycle}
use my_db.Transaction.Deadlock.Cycles.{
  Cycle, Ends, ends, Ends-not-Cycle, Sub, member-insert_id, unvisited, unvisited-anti,
  unvisited-le-length, unvisited-lt,
}

-- What is on the stack is visited; what is visited and off the stack is done with.
record IsReady (g : WaitFor) (s : Search) : Type 0 where
  under : Sub s.in_stack s.visited
  done : (v : ℕ) → member v s.visited ≡ true → member v s.in_stack ≡ false → Ends g v

record Advances (g : WaitFor) (s s' : Search) : Type 0 where
  ready : IsReady g s'
  grows : Sub s.visited s'.visited
  stack : (x : ℕ) → member x s'.in_stack ≡ member x s.in_stack

abbrev IsComplete : WaitFor → ℕ → (ℕ → Search → Bool × Search) → Type 0
IsComplete g fuel go =
    (n : ℕ) (s : Search)
    → unvisited g s.visited < fuel
    → member n s.visited ≡ false
    → IsReady g s
    → (go n s).0 ≡ false
    → Advances g s (go n s).1 × (member n (go n s).1.visited ≡ true)

Advances-refl : (g : WaitFor) (s : Search) → IsReady g s → Advances g s s
Advances-refl g s r = record { ready = r; grows = λ x m. m; stack = λ x. refl }

Advances-trans :
    {g : WaitFor} {s s' s'' : Search} → Advances g s s' → Advances g s' s'' → Advances g s s''
Advances-trans a b = record {
  ready = b.ready;
  grows = λ x m. b.grows x (a.grows x m);
  stack = λ x. b.stack x ∙ a.stack x;
}

abbrev AllEnd : WaitFor → List ℕ → Type 0
AllEnd g ns = (n : ℕ) → member n ns ≡ true → Ends g n

AllEnd-cons : {g : WaitFor} (n : ℕ) (ns : List ℕ) → Ends g n → AllEnd g ns → AllEnd g (n ∷ ns)
unfolding member
AllEnd-cons {g} n ns e es m h = elim (Bool-cases (nat_eq n m)) [
  | inl p ↦ subst (Ends g) ((nat_eq_iff n m).0 p) e
  | inr p ↦ es m (ground arith)
]

module _ (g : WaitFor) (fuel : ℕ) (go : ℕ → Search → Bool × Search)
    (complete : IsComplete g fuel go) where
  visit-AllEnd :
      (ns : List ℕ) (s : Search)
      → unvisited g s.visited < fuel
      → IsReady g s
      → (visit_neighbours go ns s).0 ≡ false
      → Advances g s (visit_neighbours go ns s).1 × AllEnd g ns
  unfolding visit_neighbours member
  visit-AllEnd [] s lt r h = (Advances-refl g s r, λ n m. absurd (ground arith))
  visit-AllEnd (n ∷ ns) s lt r h = elim (Bool-cases (member n s.in_stack)) [
    | inl back ↦ absurd (ground arith)
    | inr new ↦ elim (Bool-cases (member n s.visited)) [
      | inl old ↦
          let (a, es) = visit-AllEnd ns s lt r (ground arith) in
          rw (new, old, visit_neighbours) (rw old (a, AllEnd-cons n ns (r.done n old new) es))
      | inr fresh ↦
          let off : (go n s).0 ≡ false = ground arith in
          let (a, seen) = complete n s lt fresh r off in
          let lt' : unvisited g (go n s).1.visited < fuel =
            omega (arith, unvisited-anti g s.visited (go n s).1.visited a.grows) in
          let rest : (visit_neighbours go ns (go n s).1).0 ≡ false = ground arith in
          let (b, es) = visit-AllEnd ns (go n s).1 lt' a.ready rest in
          let n_ends : Ends g n = a.ready.done n seen (a.stack n ∙ new) in
          rw (new, fresh, off, visit_neighbours)
            (rw fresh (Advances-trans a b, AllEnd-cons n ns n_ends es))
    ]
  ]

-- Entering a transaction.
enter : ℕ → Search → Search
enter t s = record { visited = insert_id t s.visited; in_stack = insert_id t s.in_stack }

enter-IsReady : {g : WaitFor} (t : ℕ) (s : Search) → IsReady g s → IsReady g (enter t s)
unfolding enter
enter-IsReady t s r = record {
  under = λ x m. rw member-insert_id (ground (arith, r.under x, member-insert_id x t s.in_stack));
  done = λ v m off.
      r.done v (ground (arith, member-insert_id v t s.visited, member-insert_id v t s.in_stack))
        (ground (arith, member-insert_id v t s.in_stack));
}

-- Leaving it, with all its neighbours done with.
leave-Advances :
    {g : WaitFor} (t : ℕ) (s s' : Search)
    → member t s.visited ≡ false
    → IsReady g s
    → Advances g (enter t s) s'
    → Ends g t
    → Advances g s (record s' { in_stack = erase_id t s'.in_stack }) × (member t s'.visited ≡ true)
unfolding enter
leave-Advances {g} t s s' fresh r a e = (
  record {
    ready = record {
      under = λ x m. a.ready.under x (ground (arith, member-erase_id x t s'.in_stack));
      done = λ v m off. elim (Bool-cases (nat_eq t v)) [
        | inl p ↦ subst (Ends g) ((nat_eq_iff t v).0 p) e
        | inr p ↦ a.ready.done v m (ground (arith, member-erase_id v t s'.in_stack))
      ];
    };
    grows = λ x m. a.grows x (rw member-insert_id (ground (arith, m)));
    stack = λ x. ground (
      arith,
      nat_eq_iff t x,
      member-erase_id x t s'.in_stack,
      a.stack x,
      member-insert_id x t s.in_stack,
      r.under x,
    );
  },
  a.grows t (rw member-insert_id (ground (arith, nat_eq_iff t t))),
)

abbrev loop : WaitFor → ℕ → ℕ → Search → Bool × Search
loop g fuel t s = visit_neighbours (λ n s₁. detect_cycle g fuel n s₁) (neighbours g t) (enter t s)

neighbours_absent : (g : WaitFor) (t : ℕ) → lookup t g ≡ none → neighbours g t ≡ []
unfolding neighbours
neighbours_absent g t e = ground (arith, e)

-- The loop of one call, over the transaction's neighbours.
loop-AllEnd :
    (g : WaitFor) (fuel t : ℕ) (s : Search)
    → IsComplete g fuel (detect_cycle g fuel)
    → unvisited g s.visited < suc fuel
    → member t s.visited ≡ false
    → IsReady g s
    → (loop g fuel t s).0 ≡ false
    → Advances g (enter t s) (loop g fuel t s).1 × AllEnd g (neighbours g t)
unfolding visit_neighbours enter member
loop-AllEnd g fuel t s complete lt fresh r h = elim (Option-cases (lookup t g)) [
  | inl e ↦
      rw (neighbours_absent g t e, visit_neighbours)
        (Advances-refl g (enter t s) (enter-IsReady t s r), λ n m. absurd (ground arith))
  | inr (ns, e) ↦
      let less : unvisited g (insert_id t s.visited) < fuel =
        omega (arith, unvisited-lt g t s.visited ns e fresh) in
      visit-AllEnd g fuel (λ n s₁. detect_cycle g fuel n s₁) complete (neighbours g t) (enter t s)
        less (enter-IsReady t s r) h
]

detect_cycle-IsComplete : (g : WaitFor) (fuel : ℕ) → IsComplete g fuel (detect_cycle g fuel)
unfolding detect_cycle enter
detect_cycle-IsComplete g zero t s lt fresh r h = absurd (omega arith)
detect_cycle-IsComplete g (suc fuel) t s lt fresh r h =
    let off : (loop g fuel t s).0 ≡ false = ground arith in
    let (a, es) = loop-AllEnd g fuel t s (detect_cycle-IsComplete g fuel) lt fresh r off in
    rw (off, detect_cycle) (leave-Advances t s (loop g fuel t s).1 fresh r a (ends t es))

-- A search that reports no deadlock shows that every chain of waiting from the transaction ends:
-- no transaction that it waits for, directly or not, waits for itself.
pub has_deadlock-Ends : (g : WaitFor) (t : ℕ) → has_deadlock g t ≡ false → Ends g t
unfolding has_deadlock member
has_deadlock-Ends g t h =
    let s : Search = record { visited = []; in_stack = [] } in
    let r : IsReady g s = record { under = λ x m. m; done = λ v m off. absurd (ground arith) } in
    let (a, seen) =
      detect_cycle-IsComplete g (suc (length g)) t s (omega (arith, unvisited-le-length g [])) refl
        r h in
    a.ready.done t seen (a.stack t)

-- The search reports a deadlock exactly where there is a cycle to come to.
pub has_deadlock-iff-Cycle : (g : WaitFor) (t : ℕ) → (has_deadlock g t ≡ true) ↔ Cycle g t
has_deadlock-iff-Cycle g t = (
  has_deadlock-Cycle g t,
  λ c. elim (Bool-cases (has_deadlock g t)) [
    | inl h ↦ h
    | inr h ↦ absurd (Ends-not-Cycle (has_deadlock-Ends g t h) c)
  ],
)
