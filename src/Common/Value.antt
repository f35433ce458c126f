-- ===== src/Common/Value.antt =====
-- src/common/value.h and column.h
use my_db.Base.{◌≡◌, ◌↔◌, Bool, true, false, arith, Eq}
use my_db.Base.Bytes.{Bytes, bytes_eq, bytes_eq_iff}
use my_db.Base.Int.{ℤ, int_eq, int_eq_iff}
use my_db.Common.Exception.{Result, ok, throw, bad_variant_access}

pub data DataType : Type 0 where
  int_type text_type : DataType

-- The tag `type_` always agrees with the alternative that `data_` holds.
pub data Value : Type 0 where
  int : ℤ → Value
  text : Bytes → Value

unfoldable pub type_of : Value → DataType
type_of (int _) = int_type
type_of (text _) = text_type

-- `std::get` throws where the value holds the other alternative.
unfoldable pub as_int : Value → Result ℤ
as_int (int n) = ok n
as_int (text _) = throw bad_variant_access

unfoldable pub as_text : Value → Result Bytes
as_text (int _) = throw bad_variant_access
as_text (text s) = ok s

abbrev pub type_eq : DataType → DataType → Bool
type_eq int_type int_type = true
type_eq text_type text_type = true
type_eq _ _ = false

-- `operator==`
abbrev pub value_eq : Value → Value → Bool
value_eq (int a) (int b) = int_eq a b
value_eq (text a) (text b) = bytes_eq a b
value_eq (int _) (text _) = false
value_eq (text _) (int _) = false

pub value_eq_iff : (a b : Value) → (value_eq a b ≡ true) ↔ (a ≡ b)
value_eq_iff (int a) (int b) = ground (arith, int_eq_iff a b)
value_eq_iff (text a) (text b) = ground (arith, bytes_eq_iff a b)
value_eq_iff (int _) (text _) = ground arith
value_eq_iff (text _) (int _) = ground arith

instance abbrev pub value_Eq : Eq Value
value_Eq = record { equal = value_eq; equal_iff = value_eq_iff }

pub record Column : Type 0 where
  pub name : Bytes
  pub type : DataType
