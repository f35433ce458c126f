-- ===== src/Common/Exception.antt =====
-- C++ exceptions as values: a call returns or throws.
use my_db.Base.{◌≡◌, refl, ◌⊎◌, inl, inr, String}
use my_db.Base.Bytes.{Bytes}

pub data Exception : Type 0 where
  -- `std::runtime_error`; a parse error has its text and the offending token beside it
  parse_error : String → Bytes → Exception
  runtime_error : String → Bytes → Exception
  -- `std::out_of_range`, `std::invalid_argument`, `std::bad_variant_access`
  out_of_range invalid_argument bad_variant_access : Exception

pub data Result {ℓ} (A : Type ℓ) : Type ℓ where
  ok : A → Result A
  throw : Exception → Result A

infixl 5 ◌>>=◌
abbrev pub ◌>>=◌ {ℓ κ} : {S : Type ℓ} {T : Type κ} → Result S → (S → Result T) → Result T
throw e >>= next = throw e
ok s >>= next = next s

pub Result-cases {ℓ} :
    {A : Type ℓ} (r : Result A) → ((e : Exception) × (r ≡ throw e)) ⊎ ((a : A) × (r ≡ ok a))
Result-cases (throw e) = inl (e, refl)
Result-cases (ok a) = inr (a, refl)
