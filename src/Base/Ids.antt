-- ===== src/Base/Ids.antt =====
-- Sets of numbers as lists.
use Prim.Native.Nat.{ℕ}
use mathlib.Core.Path.{◌≡◌}
use mathlib.Core.Bool.{Bool, false, not, ◌&&◌, ◌||◌}
use mathlib.Core.List.{List, [], ◌∷◌}
use native.Mathlib.Omega.{arith}
use my_db.Base.Tests.{nat_eq, nat_eq_iff, if◌then◌else◌}

unfoldable pub member : ℕ → List ℕ → Bool
member t [] = false
member t (x ∷ xs) = nat_eq x t || member t xs

unfoldable pub erase_id : ℕ → List ℕ → List ℕ
erase_id t [] = []
erase_id t (x ∷ xs) = let rest = erase_id t xs in if nat_eq x t then rest else x ∷ rest

pub member-erase_id :
    (x t : ℕ) (xs : List ℕ) → member x (erase_id t xs) ≡ (not (nat_eq t x) && member x xs)
unfolding erase_id member
member-erase_id x t [] = ground arith
member-erase_id x t (y ∷ xs) =
    ground (arith, nat_eq_iff t x, nat_eq_iff y x, nat_eq_iff y t, member-erase_id x t xs)
