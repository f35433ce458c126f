-- ===== src/Base/Bytes.antt =====
-- Byte strings: text, and the little-endian image of the fixed-width integers that the program
-- copies byte by byte with `memcpy` and `reinterpret_cast`.
use Prim.Native.Nat.{ℕ, zero, suc, ◌+◌, ◌*◌, ◌/◌, ◌%◌, ◌^◌, ◌<◌}
use Prim.Native.Char.{code}
use Prim.Native.String.{String}
use mathlib.Core.Path.{◌≡◌, refl, sym, ap}
use mathlib.Core.Logic.{◌↔◌}
use mathlib.Core.Bool.{Bool, true, false, ◌&&◌}
use mathlib.Core.Option.{Option, none, some}
use mathlib.Core.List.{List, [], ◌∷◌, ◌++◌}
use native.Mathlib.Omega.{arith}
use native.Mathlib.Nat.{pow-suc}
use my_db.Base.Tests.{nat_eq, leb, le→leb, Eq, if◌then◌else◌, ◌>>=◌}
use my_db.Base.Lists.{length, take, drop, take-append_length, drop-append_length, length-append}

-- `std::string` and `std::vector<char>`: bytes, as numbers below 256.
abbrev pub Bytes : Type 0
Bytes = List ℕ

abbrev pub codes : String → Bytes
codes String.[] = []
codes (String.◌∷◌ c s) = code c ∷ codes s

abbrev pub bytes_eq : Bytes → Bytes → Bool
bytes_eq [] [] = true
bytes_eq [] (b ∷ bs) = false
bytes_eq (a ∷ as') [] = false
bytes_eq (a ∷ as') (b ∷ bs) = nat_eq a b && bytes_eq as' bs

pub bytes_eq_iff : (a b : Bytes) → (bytes_eq a b ≡ true) ↔ (a ≡ b)
bytes_eq_iff [] [] = ground arith
bytes_eq_iff [] (b ∷ bs) = ground arith
bytes_eq_iff (a ∷ as') [] = ground arith
bytes_eq_iff (a ∷ as') (b ∷ bs) = ground (arith, bytes_eq_iff as' bs)

instance abbrev pub bytes_Eq : Eq Bytes
bytes_Eq = record { equal = bytes_eq; equal_iff = bytes_eq_iff }

-- The `w` bytes of `x`, the lowest first.
unfoldable pub to_le : ℕ → ℕ → Bytes
to_le zero x = []
to_le (suc w) x = (x % 256) ∷ to_le w (x / 256)

unfoldable pub from_le : Bytes → ℕ
from_le [] = 0
from_le (b ∷ bs) = b + 256 * from_le bs

pub length-to_le : (w x : ℕ) → length (to_le w x) ≡ w
unfolding to_le
length-to_le zero x = refl
length-to_le (suc w) x = ap suc (length-to_le w (x / 256))

pub from_le-to_le : (w x : ℕ) → x < 256 ^ w → from_le (to_le w x) ≡ x
unfolding from_le to_le
from_le-to_le zero x h = omega arith
from_le-to_le (suc w) x h =
    let q : x / 256 < 256 ^ w = omega (arith, pow-suc 256 w) in
    omega (arith, from_le-to_le w (x / 256) q)

-- `memcpy` of the next `n` bytes of a buffer: the bytes and what follows them; `none` where the
-- buffer ends before, which the program does not check.
unfoldable pub read_bytes : ℕ → Bytes → Option (Bytes × Bytes)
read_bytes n bs = if leb n (length bs) then some (take n bs, drop n bs) else none

-- The next `w` bytes as an unsigned integer.
unfoldable pub read_le : ℕ → Bytes → Option (ℕ × Bytes)
unfolding read_bytes
read_le w bs = do (b, rest) ← read_bytes w bs; some (from_le b, rest)

module _ (rest : Bytes) where
  pub read_bytes-append :
      (n : ℕ) (bs : Bytes) → n ≡ length bs → read_bytes n (bs ++ rest) ≡ some (bs, rest)
  unfolding read_bytes
  read_bytes-append n bs h = rw (
    h,
    le→leb (length bs) (length (bs ++ rest)) (omega (arith, length-append bs rest)),
    take-append_length bs rest,
    drop-append_length bs rest,
  )

  pub read_le-to_le : (w x : ℕ) → x < 256 ^ w → read_le w (to_le w x ++ rest) ≡ some (x, rest)
  unfolding read_le
  read_le-to_le w x h =
      rw (read_bytes-append w (to_le w x) (sym (length-to_le w x)), from_le-to_le w x h)

-- A read past the end.
pub read_bytes-none : (n : ℕ) (bs : Bytes) → length bs < n → read_bytes n bs ≡ none
unfolding read_bytes
read_bytes-none n bs h = ground arith

pub read_le-none : (w : ℕ) (bs : Bytes) → length bs < w → read_le w bs ≡ none
unfolding read_le
read_le-none w bs h = ground arith
