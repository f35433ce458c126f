-- ===== src/Query/TupleBytes.antt =====
-- A row and its bytes: `serializeTuple` and `deserializeTuple` of src/query/Executor.cpp.
use my_db.Base.{
  ℕ, zero, suc, ◌+◌, ◌-◌, ◌%◌, ◌^◌, ◌<◌, ◌≤◌, ◌≡◌, refl, Option, none, some, length-append, [], ◌∷◌,
  ◌++◌, append_assoc, arith, length, ◌>>=◌, All, nat_eq, if◌then◌else◌,
}
use my_db.Base.Bytes.{Bytes, to_le, read_le, read_bytes, read_le-to_le, read_bytes-append}
use my_db.Base.Int.{IsInt32, to_u32, from_u32, to_u32-lt, from_u32-to_u32}
use my_db.Common.Schema.{Schema, column_count}
use my_db.Common.Tuple.{Tuple}
use my_db.Common.Value.{Column, Value, int, text}

-- A marker, then the int, or the length of the text cut to 16 bits and the text.
unfoldable pub serialize_value : Value → Bytes
serialize_value (int n) = 1 ∷ to_le 4 (to_u32 n)
serialize_value (text s) = 2 ∷ (to_le 2 (length s % 2 ^ 16) ++ s)

unfoldable pub serialize_tuple : Tuple → Bytes
unfolding serialize_value
serialize_tuple [] = []
serialize_tuple (v ∷ t) = serialize_value v ++ serialize_tuple t

-- The value behind the marker, and the bytes that follow it.
unfoldable pub read_value : ℕ → Bytes → Option (Value × Bytes)
read_value marker bs =
    if nat_eq marker 1
    then (do (n, rest) ← read_le 4 bs; some (int (from_u32 n), rest))
    else (do (len, b) ← read_le 2 bs; (s, rest) ← read_bytes len b; some (text s, rest))

-- One value for each column while bytes of the row are left; the memory that is read may go on
-- behind the row, and `none` is a read past the end of it.
unfoldable pub read_values : Schema → ℕ → Bytes → Option Tuple
unfolding read_value
read_values [] left bs = some []
read_values (c ∷ s) zero bs = some []
read_values (c ∷ s) (suc left) [] = none
read_values (c ∷ s) (suc left) (marker ∷ bs) = do
  (v, rest) ← read_value marker bs
  t ← read_values s (left - (length bs - length rest)) rest
  some (v ∷ t)

-- The length is a 16-bit number.
unfoldable pub deserialize_tuple : Bytes → ℕ → Schema → Option Tuple
unfolding read_values
deserialize_tuple bs data_len s = read_values s (data_len % 2 ^ 16) bs

-- An `int`, or a text whose length fits its field.
abbrev pub Fits : Value → Type 0
Fits (int n) = IsInt32 n
Fits (text s) = length s < 2 ^ 16

read_values-step :
    (c : Column) (s : Schema) (marker left k : ℕ) (bs rest : Bytes) (v : Value)
    → read_value marker bs ≡ some (v, rest)
    → left ≡ suc ((length bs - length rest) + k)
    → read_values (c ∷ s) left (marker ∷ bs) ≡ (do t ← read_values s k rest; some (v ∷ t))
unfolding read_values
read_values-step c s marker zero k bs rest v e at = absurd (omega (arith, at))
read_values-step c s marker (suc left) k bs rest v e at =
    let same : left - (length bs - length rest) ≡ k = omega (arith, at) in rw (e, same) refl

read_values-serialize_value :
    (v : Value) (c : Column) (s : Schema) (rest : Bytes) (n : ℕ)
    → Fits v
    → read_values (c ∷ s) (length (serialize_value v) + n) (serialize_value v ++ rest)
      ≡ (do t ← read_values s n rest; some (v ∷ t))
unfolding serialize_value read_value
read_values-serialize_value (int n) c s rest k h =
    read_values-step c s 1 _ k (to_le 4 (to_u32 n) ++ rest) rest (int n)
      (rw (read_le-to_le rest 4 (to_u32 n) (omega (arith, to_u32-lt n h)), from_u32-to_u32 n h)
        refl)
      (omega (arith, length-append (to_le 4 (to_u32 n)) rest))
read_values-serialize_value (text x) c s rest k h =
    let len : length x % 2 ^ 16 ≡ length x = omega (arith, h) in
    read_values-step c s 2 _ k ((to_le 2 (length x % 2 ^ 16) ++ x) ++ rest) rest (text x)
      (rw
        (
          len,
          append_assoc (to_le 2 (length x)) x rest,
          read_le-to_le (x ++ rest) 2 (length x) (omega (arith, h)),
          read_bytes-append rest (length x) x refl,
        )
        refl)
      (omega (arith, length-append (to_le 2 (length x % 2 ^ 16) ++ x) rest))

read_values-serialize_tuple :
    (t : Tuple) (s : Schema) (rest : Bytes)
    → length t ≤ column_count s
    → All Fits t
    → read_values s (length (serialize_tuple t)) (serialize_tuple t ++ rest) ≡ some t
unfolding serialize_tuple
read_values-serialize_tuple [] [] rest le h = unfold read_values in refl
read_values-serialize_tuple [] (c ∷ s) rest le h = unfold read_values in refl
read_values-serialize_tuple (v ∷ t) [] rest le h = absurd (omega arith)
read_values-serialize_tuple (v ∷ t) (c ∷ s) rest le h =
    rw
      (
        length-append (serialize_value v) (serialize_tuple t),
        append_assoc (serialize_value v) (serialize_tuple t) rest,
        read_values-serialize_value v c s (serialize_tuple t ++ rest) (length (serialize_tuple t))
            h.0,
        read_values-serialize_tuple t s rest (omega arith) h.1,
      )
      refl

-- A row of no more values than the schema has columns, each an `int` or a text that fits its length
-- field, is read back from its bytes, whatever the columns' types and whatever stands behind them,
-- where the bytes are fewer than 2 ^ 16.
pub deserialize-serialize_tuple :
    (t : Tuple) (s : Schema) (rest : Bytes)
    → length t ≤ column_count s
    → All Fits t
    → length (serialize_tuple t) < 2 ^ 16
    → deserialize_tuple (serialize_tuple t ++ rest) (length (serialize_tuple t)) s ≡ some t
unfolding deserialize_tuple
deserialize-serialize_tuple t s rest le h lt =
    let size : length (serialize_tuple t) % 2 ^ 16 ≡ length (serialize_tuple t) =
      omega (arith, lt) in
    rw size (read_values-serialize_tuple t s rest le h)
