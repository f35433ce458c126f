-- ===== src/Parser/Accepts.antt =====
-- The parser of src/parser/parser.cpp on the tokens of a query.
use my_db.Base.{
  ℕ, zero, suc, ◌≤◌, ◌≡◌, refl, Bool, true, false, Option, none, some, List, [], ◌∷◌, length, arith,
}
use my_db.Base.Bytes.{Bytes, codes}
use my_db.Common.Exception.{ok}
use my_db.Parser.Lexer.{token, from_token, Token}
use my_db.Parser.Statement.{Statement}
use my_db.Parser.Primitives.{accept, expect, parse_value, parse_column}
use my_db.Parser.Parser.{
  parse_create_table, parse_insert_value, parse_insert, parse_where, parse_names, parse_columns,
  parse_where_of, parse_select, parse_delete, parse_statement, parse,
}
use my_db.Parser.Items.{items_until_rparen-separated, column-Reads, literal-Reads}
use my_db.Parser.Grammar.{
  Literal, number, quoted, name, Condition, Query, create_query, insert_query, select_query,
  select_all_query, delete_query, word, end_tokens, separated, column_tokens, literal_tokens,
  name_tokens, condition_tokens, query_tokens, column_def, literal_value, with_condition,
  query_statement,
}

abbrev from_tokens : List Token → List Token
from_tokens rest = token from_token (codes "FROM") ∷ rest

names-separated :
    (fuel : ℕ) (n : Bytes) (ns : List Bytes) (rest : List Token)
    → length ns ≤ fuel
    → parse_names (suc fuel) (separated name_tokens (n ∷ ns) (from_tokens rest))
      ≡ ok (n ∷ ns, from_tokens rest)
unfolding parse_names separated expect
names-separated fuel n [] rest h = refl
names-separated zero n (m ∷ ns) rest h = absurd (omega arith)
names-separated (suc fuel) n (m ∷ ns) rest h =
    rw (names-separated fuel m ns rest (omega arith), parse_names)

length-names :
    (n : Bytes) (ns : List Bytes) (rest : List Token)
    → length ns ≤ length (separated name_tokens (n ∷ ns) rest)
unfolding separated
length-names n [] rest = omega arith
length-names n (m ∷ ns) rest = omega (arith, length-names m ns rest)

columns-separated :
    (n : Bytes) (ns : List Bytes) (rest : List Token)
    → parse_columns (separated name_tokens (n ∷ ns) (from_tokens rest))
      ≡ ok ((false, n ∷ ns), from_tokens rest)
unfolding parse_columns separated
columns-separated n [] rest =
    rw (names-separated _ n [] rest (length-names n [] (from_tokens rest)), parse_columns)
columns-separated n (m ∷ ns) rest =
    rw (
      names-separated _ n (m ∷ ns) rest (length-names n (m ∷ ns) (from_tokens rest)),
      parse_columns,
    )

condition-tokens :
    (c : Option Condition) (stmt : Statement) (semi : Bool)
    → parse_where_of stmt (condition_tokens c (end_tokens semi))
      ≡ ok (with_condition c stmt, end_tokens semi)
unfolding parse_where_of parse_where expect parse_value
condition-tokens none stmt true = refl
condition-tokens none stmt false = refl
condition-tokens (some c) stmt semi = by_literal c.column c.value
  where
    by_literal :
        (column : Bytes) (v : Literal)
        → parse_where_of stmt
            (condition_tokens (some (record { column = column; value = v })) (end_tokens semi))
          ≡ ok (with_condition (some (record { column = column; value = v })) stmt, end_tokens semi)
    by_literal column (number n) = refl
    by_literal column (quoted n) = refl
    by_literal column (name n) = refl

select-query :
    (first : Bytes) (others : List Bytes) (table : Bytes) (c : Option Condition) (semi : Bool)
    → parse (query_tokens (select_query first others table c) semi)
      ≡ ok (query_statement (select_query first others table c))
unfolding parse parse_statement parse_select query_tokens query_statement expect accept
select-query first others table c semi =
    rw (columns-separated first others (word table ∷ condition_tokens c (end_tokens semi)), parse)
      (rw (condition-tokens c _ semi) (ground arith))

-- The parser reads the tokens of a query, with or without the semicolon, as its statement.
pub parse-query_tokens :
    (q : Query) (semi : Bool) → parse (query_tokens q semi) ≡ ok (query_statement q)
unfolding parse parse_statement parse_create_table parse_insert parse_select parse_columns
    parse_delete query_tokens query_statement expect accept
parse-query_tokens (create_query table columns) semi =
    rw
      (
        items_until_rparen-separated parse_column column_tokens column_def column-Reads columns
            (end_tokens semi),
        parse,
      )
      (ground arith)
parse-query_tokens (insert_query table values) semi =
    rw
      (
        items_until_rparen-separated parse_insert_value literal_tokens literal_value literal-Reads
            values (end_tokens semi),
        parse,
      )
      (ground arith)
parse-query_tokens (select_query first others table c) semi = select-query first others table c semi
parse-query_tokens (select_all_query table c) semi =
    rw (condition-tokens c _ semi, parse) (ground arith)
parse-query_tokens (delete_query table c) semi =
    rw (condition-tokens c _ semi, parse) (ground arith)
