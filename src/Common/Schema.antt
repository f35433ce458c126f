-- ===== src/Common/Schema.antt =====
-- src/common/schema.h: a table's ordered columns.
use my_db.Base.{ℕ, suc, Option, none, some, List, [], ◌∷◌, ◌++◌, length, get_elem?, if◌then◌else◌}
use my_db.Base.Bytes.{Bytes, bytes_eq}
use my_db.Common.Exception.{Result, ok, throw, out_of_range}
use my_db.Common.Value.{Column}

abbrev pub Schema : Type 0
Schema = List Column

unfoldable pub add_column : Column → Schema → Schema
add_column col s = s ++ col ∷ []

abbrev pub column_count : Schema → ℕ
column_count = length

abbrev pub at_or_throw {ℓ} : {A : Type ℓ} → Option A → Result A
at_or_throw none = throw out_of_range
at_or_throw (some a) = ok a

unfoldable pub get_column : Schema → ℕ → Result Column
get_column s i = at_or_throw (get_elem? s i)

find_column_from : ℕ → Bytes → Schema → Option ℕ
find_column_from i name [] = none
find_column_from i name (c ∷ s) =
    let rest = find_column_from (suc i) name s in if bytes_eq c.name name then some i else rest

-- The first column of that name; `none` stands for the -1 of the source.
unfoldable pub find_column : Schema → Bytes → Option ℕ
unfolding find_column_from
find_column s name = find_column_from 0 name s
