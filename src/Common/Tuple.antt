-- ===== src/Common/Tuple.antt =====
-- src/common/tuple.h: one row's values.
use my_db.Base.{ℕ, Bool, true, false, ◌&&◌, none, some, List, [], ◌∷◌, get_elem?}
use my_db.Base.Bytes.{Bytes}
use my_db.Common.Exception.{Result, throw, runtime_error}
use my_db.Common.Schema.{Schema, at_or_throw, find_column}
use my_db.Common.Value.{Value, type_of, type_eq}

abbrev pub Tuple : Type 0
Tuple = List Value

unfoldable pub get_value : Tuple → ℕ → Result Value
get_value t i = at_or_throw (get_elem? t i)

unfoldable pub get_value_named : Tuple → Bytes → Schema → Result Value
unfolding get_value
get_value_named t name s = elim (find_column s name) [
  | none ↦ throw (runtime_error "Column not found: " name)
  | some i ↦ get_value t i
]

-- The sizes agree, and so do the types at each position.
unfoldable pub matches_schema : Tuple → Schema → Bool
matches_schema [] [] = true
matches_schema [] (c ∷ s) = false
matches_schema (v ∷ t) [] = false
matches_schema (v ∷ t) (c ∷ s) = type_eq (type_of v) c.type && matches_schema t s
