-- ===== src/Transaction/Deadlock.antt =====
-- The wait-for graph and the depth-first search for a cycle in it: `hasDeadlock` and `detectCycle`
-- of src/transaction/LockManager.cpp.
pub mod Cycles
pub mod Sound
pub mod Complete
use my_db.Base.{
  member, erase_id, nat_Eq, ℕ, zero, suc, Bool, true, false, ◌||◌, none, some, List, [], ◌∷◌,
  length, nat_eq, if◌then◌else◌,
}
use my_db.Base.Map.{Map, lookup}

-- Sets of transaction ids are lists.
unfoldable pub insert_id : ℕ → List ℕ → List ℕ
insert_id t xs = if member t xs then xs else t ∷ xs

-- For each transaction those that it waits for.
abbrev pub WaitFor : Type 0
WaitFor = Map ℕ (List ℕ)

unfoldable pub neighbours : WaitFor → ℕ → List ℕ
neighbours g t = elim (lookup t g) [ none ↦ [] | some ns ↦ ns ]

-- The two sets that the search changes.
pub record Search : Type 0 where
  pub visited : List ℕ
  pub in_stack : List ℕ

-- The loop over the neighbours; `go` is the search one level down.
unfoldable pub visit_neighbours : (ℕ → Search → Bool × Search) → List ℕ → Search → Bool × Search
visit_neighbours go [] s = (false, s)
visit_neighbours go (n ∷ ns) s = elim (member n s.in_stack) [
  | true ↦ (true, s)
  | false ↦
      let (found, s') = if member n s.visited then (false, s) else go n s in
      elim found [ true ↦ (true, s') | false ↦ visit_neighbours go ns s' ]
]

-- The depth of the calls is bounded by `fuel`, of which `has_deadlock` gives enough.
unfoldable pub detect_cycle : WaitFor → ℕ → ℕ → Search → Bool × Search
detect_cycle g zero t s = (false, s)
detect_cycle g (suc fuel) t s =
    let (found, s') =
      visit_neighbours (λ n s₁. detect_cycle g fuel n s₁) (neighbours g t)
        (record { visited = insert_id t s.visited; in_stack = insert_id t s.in_stack }) in
    elim found [
      | true ↦ (true, s')
      | false ↦ (false, record s' { in_stack = erase_id t s'.in_stack })
    ]

unfoldable pub has_deadlock : WaitFor → ℕ → Bool
has_deadlock g t = (detect_cycle g (suc (length g)) t (record { visited = []; in_stack = [] })).0
