-- ===== src/Base/Int.antt =====
-- C++ `int`: a mathematical integer with the range of 32 bits, and its two's complement pattern.
use Prim.Native.Nat.{ℕ, ◌-◌, ◌<◌, ◌^◌}
use mathlib.Core.Path.{◌≡◌}
use mathlib.Core.Logic.{◌↔◌}
use mathlib.Core.Bool.{Bool, true, false}
use native.Mathlib.Omega.{arith}
use my_db.Base.Tests.{ltb, nat_eq, if◌then◌else◌, Eq}

-- `negsuc n` is -(n + 1).
pub data ℤ : Type 0 where
  pos : ℕ → ℤ
  negsuc : ℕ → ℤ

abbrev pub int_eq : ℤ → ℤ → Bool
int_eq (pos a) (pos b) = nat_eq a b
int_eq (negsuc a) (negsuc b) = nat_eq a b
int_eq (pos a) (negsuc b) = false
int_eq (negsuc a) (pos b) = false

pub int_eq_iff : (a b : ℤ) → (int_eq a b ≡ true) ↔ (a ≡ b)
int_eq_iff (pos a) (pos b) = ground arith
int_eq_iff (negsuc a) (negsuc b) = ground arith
int_eq_iff (pos a) (negsuc b) = ground arith
int_eq_iff (negsuc a) (pos b) = ground arith

instance abbrev pub int_Eq : Eq ℤ
int_Eq = record { equal = int_eq; equal_iff = int_eq_iff }

-- a < b
abbrev pub int_ltb : ℤ → ℤ → Bool
int_ltb (pos a) (pos b) = ltb a b
int_ltb (negsuc a) (negsuc b) = ltb b a
int_ltb (pos a) (negsuc b) = false
int_ltb (negsuc a) (pos b) = true

-- The values of `int`.
abbrev pub IsInt32 : ℤ → Type 0
IsInt32 (pos n) = n < 2 ^ 31
IsInt32 (negsuc n) = n < 2 ^ 31

-- The bit pattern of an int, as a number below 2 ^ 32, and back.
abbrev pub to_u32 : ℤ → ℕ
to_u32 (pos n) = n
to_u32 (negsuc n) = 2 ^ 32 - 1 - n

abbrev pub from_u32 : ℕ → ℤ
from_u32 w = if ltb w (2 ^ 31) then pos w else negsuc (2 ^ 32 - 1 - w)

pub to_u32-lt : (z : ℤ) → IsInt32 z → to_u32 z < 2 ^ 32
to_u32-lt (pos n) h = omega arith
to_u32-lt (negsuc n) h = omega arith

pub from_u32-to_u32 : (z : ℤ) → IsInt32 z → from_u32 (to_u32 z) ≡ z
from_u32-to_u32 (pos n) h = ground arith
from_u32-to_u32 (negsuc n) h = ground arith
