-- ===== src/Transaction/Deadlock/Cycles.antt =====
-- Paths and cycles of the wait-for graph, and its sets of transactions
-- (src/transaction/LockManager.cpp).
use my_db.Base.{
  member, ℕ, ◌+◌, ◌≤◌, ◌<◌, ◌≡◌, refl, sym, ◌⊎◌, inl, inr, true, false, ◌||◌, some, List, [], ◌∷◌,
  arith, length, nat_eq, nat_eq_iff, nat_Eq, if◌then◌else◌,
}
use mathlib.Core.Path.{subst}
use my_db.Base.Map.{lookup}
use my_db.Transaction.Deadlock.{insert_id, WaitFor, neighbours}

-- `a` waits for `b`.
abbrev pub Edge : WaitFor → ℕ → ℕ → Type 0
Edge g a b = member b (neighbours g a) ≡ true

pub data Reach (g : WaitFor) (a : ℕ) : ℕ → Type 0 where
  here : Reach g a a
  next : {b c : ℕ} → Reach g a b → Edge g b c → Reach g a c

pub Reach-trans : {g : WaitFor} {a b c : ℕ} → Reach g a b → Reach g b c → Reach g a c
Reach-trans r here = r
Reach-trans r (next q e) = next (Reach-trans r q) e

-- From `t` one comes to a transaction that waits, through others, for itself.
pub record Cycle (g : WaitFor) (t : ℕ) : Type 0 where
  pub on : ℕ
  pub after : ℕ
  pub reached : Reach g t on
  pub leaves : Edge g on after
  pub returns : Reach g after on

-- Every path from the transaction ends.
pub data Ends (g : WaitFor) : ℕ → Type 0 where
  ends : (t : ℕ) → ((n : ℕ) → Edge g t n → Ends g n) → Ends g t

Ends-Edge : {g : WaitFor} {b c : ℕ} → Ends g b → Edge g b c → Ends g c
Ends-Edge (ends _ f) edge = f _ edge

pub Ends-Reach : {g : WaitFor} {a b : ℕ} → Ends g a → Reach g a b → Ends g b
Ends-Reach e here = e
Ends-Reach e (next r edge) = Ends-Edge (Ends-Reach e r) edge

-- A path is empty or has a first step.
Reach-head : {g : WaitFor} {a b : ℕ} → Reach g a b → (a ≡ b) ⊎ ((x : ℕ) × Edge g a x × Reach g x b)
Reach-head here = inl refl
Reach-head {g} (next {b = b} {c = c} r e) = elim (Reach-head r) [
  | inl p ↦ inr (c, subst (λ z. Edge g z c) (sym p) e, here)
  | inr (x, first, rest) ↦ inr (x, first, next rest e)
]

no_loop : {g : WaitFor} {c : ℕ} (n : ℕ) → Ends g c → Edge g c n → Reach g n c → ⊥
no_loop {g} n (ends c f) edge back = elim (Reach-head back) [
  | inl p ↦ no_loop n (f n edge) (subst (λ z. Edge g z n) (sym p) edge) here
  | inr (x, first, rest) ↦ no_loop x (f n edge) first (next rest edge)
]

-- Where every path ends there is no cycle to come to.
pub Ends-not-Cycle : {g : WaitFor} {t : ℕ} → Ends g t → ¬ Cycle g t
Ends-not-Cycle e c = no_loop c.after (Ends-Reach e c.reached) c.leaves c.returns

pub member-insert_id :
    (x t : ℕ) (xs : List ℕ) → member x (insert_id t xs) ≡ (nat_eq t x || member x xs)
unfolding insert_id member
member-insert_id x t xs = ground (arith, nat_eq_iff t x)

abbrev pub Sub : List ℕ → List ℕ → Type 0
Sub xs ys = (x : ℕ) → member x xs ≡ true → member x ys ≡ true

-- How many entries of the graph are of transactions outside a set.
unfoldable pub unvisited : WaitFor → List ℕ → ℕ
unvisited [] vs = 0
unvisited ((k, _) ∷ g) vs = (if member k vs then 0 else 1) + unvisited g vs

pub unvisited-anti : (g : WaitFor) (vs ws : List ℕ) → Sub vs ws → unvisited g ws ≤ unvisited g vs
unfolding unvisited
unvisited-anti [] vs ws h = omega arith
unvisited-anti ((k, _) ∷ g) vs ws h = ground (arith, h k, unvisited-anti g vs ws h)

pub unvisited-le-length : (g : WaitFor) (vs : List ℕ) → unvisited g vs ≤ length g
unfolding unvisited
unvisited-le-length [] vs = omega arith
unvisited-le-length ((k, _) ∷ g) vs = ground (arith, unvisited-le-length g vs)

-- A visit of a transaction with an entry.
pub unvisited-lt :
    (g : WaitFor) (t : ℕ) (vs ns : List ℕ)
    → lookup t g ≡ some ns
    → member t vs ≡ false
    → unvisited g (insert_id t vs) < unvisited g vs
unfolding unvisited lookup
unvisited-lt [] t vs ns e h = absurd (ground arith)
unvisited-lt ((k, ks) ∷ g) t vs ns e h = ground (
  arith,
  nat_eq_iff k t,
  member-insert_id k t vs,
  nat_eq_iff t k,
  unvisited-lt g t vs ns,
  unvisited-anti g vs (insert_id t vs) (λ x m. rw member-insert_id (ground (arith, m))),
)
