-- ===== src/Tests/Rows.antt =====
-- Rows at small inputs (src/query).
use my_db.Base.{◌≡◌, refl, some, [], ◌∷◌, ◌++◌, arith, length}
use my_db.Base.Bytes.{codes, length-to_le, to_le, from_le, read_bytes, read_le}
use my_db.Base.Int.{pos, negsuc, to_u32}
use my_db.Common.Schema.{Schema}
use my_db.Common.Tuple.{Tuple}
use my_db.Common.Value.{int, text, int_type, text_type}
use my_db.Query.TupleBytes.{
  serialize_value, serialize_tuple, read_value, read_values, deserialize_tuple,
  deserialize-serialize_tuple,
}

abbrev people : Schema
people =
    record { name = codes "id"; type = int_type }
    ∷ record { name = codes "name"; type = text_type }
    ∷ []

abbrev ann : Tuple
ann = int (negsuc 4) ∷ text (codes "Ann") ∷ []

-- A row that ends early is a shorter row.
short_test :
    deserialize_tuple (serialize_tuple (int (pos 7) ∷ [])) 5 people ≡ some (int (pos 7) ∷ [])
unfolding serialize_value serialize_tuple read_value read_values deserialize_tuple to_le from_le
    read_bytes read_le
short_test = refl

deserialize-serialize_tuple_example :
    deserialize_tuple (serialize_tuple ann ++ 9 ∷ []) (length (serialize_tuple ann)) people
    ≡ some ann
unfolding serialize_tuple serialize_value to_le
deserialize-serialize_tuple_example =
    deserialize-serialize_tuple ann people (9 ∷ []) (omega arith) (omega arith, (omega arith, tt))
      (omega (arith, length-to_le 4 (to_u32 (negsuc 4))))
