-- ===== src/Parser/Parser.antt =====
-- The grammar of src/parser/parser.cpp, one function for each `parse...` method.
use my_db.Base.{ℕ, zero, suc, Bool, true, false, List, [], ◌∷◌, length, if◌then◌else◌}
use my_db.Base.Bytes.{Bytes}
use my_db.Common.Exception.{Result, ok, throw}
use my_db.Parser.Lexer.{
  Token, select_token, insert_token, into_token, values_token, from_token, where_token,
  create_token, table_token, delete_token, identifier_token, star_token, comma_token, lparen_token,
  rparen_token, semicolon_token, equals_token,
}
use my_db.Parser.Statement.{
  Statement, WhereClause, new_statement, create_table, insert, select, delete_stmt,
}
use my_db.Parser.Primitives.{
  Parse, ◌>>=◌, ◌>>◌, pure, accept, expect, fail, check, parse_value, parse_column, parse_items,
  advance,
}

-- The tokens that are left bound the rounds of a loop.
unfoldable pub items_until_rparen {ℓ} : {A : Type ℓ} → Parse A → Parse (List A)
items_until_rparen item ts = parse_items item (length ts) ts

unfoldable pub parse_create_table : Parse Statement
parse_create_table = do
  expect create_token "Parse error: expected CREATE"
  expect table_token "Parse error: expected TABLE after CREATE"
  name ← expect identifier_token "Parse error: expected table name"
  expect lparen_token "Parse error: expected '(' after table name"
  columns ← items_until_rparen parse_column
  expect rparen_token "Parse error: expected ')' after column definitions"
  accept semicolon_token
  pure (record (new_statement create_table) { table_name = name; columns = columns })

-- A value, with the comma behind it if there is one.
unfoldable pub parse_insert_value : Parse Bytes
parse_insert_value = do
  value ← parse_value "Parse error: expected a value"
  accept comma_token
  pure value

unfoldable pub parse_insert : Parse Statement
parse_insert = do
  expect insert_token "Parse error: expected INSERT"
  expect into_token "Parse error: expected INTO after INSERT"
  name ← expect identifier_token "Parse error: expected table name"
  expect values_token "Parse error: expected VALUES"
  expect lparen_token "Parse error: expected '(' after VALUES"
  values ← items_until_rparen parse_insert_value
  expect rparen_token "Parse error: expected ')' after values"
  accept semicolon_token
  pure (record (new_statement insert) { table_name = name; values = values })

unfoldable pub parse_where : Parse WhereClause
parse_where = do
  expect where_token "Parse error: expected WHERE"
  column ← expect identifier_token "Parse error: expected column name in WHERE"
  expect equals_token "Parse error: expected '=' in WHERE clause"
  value ← parse_value "Parse error: expected a value after '=' in WHERE clause"
  pure (record { column = column; value = value })

-- The comma-separated names of SELECT. Each round passes a name.
unfoldable pub parse_names : ℕ → Parse (List Bytes)
parse_names zero ts = fail "expected column name" ts
parse_names (suc fuel) ts = elim (expect identifier_token "Parse error: expected column name" ts) [
  | throw e ↦ throw e
  | ok (name, rest) ↦ elim (check comma_token rest) [
    | false ↦ ok (name ∷ [], rest)
    | true ↦ elim (parse_names fuel (advance rest)) [
      | throw e ↦ throw e
      | ok (names, rest') ↦ ok (name ∷ names, rest')
    ]
  ]
]

unfoldable pub parse_columns : Parse (Bool × List Bytes)
parse_columns ts = elim (check star_token ts) [
  | true ↦ ok ((true, []), advance ts)
  | false ↦ elim (parse_names (suc (length ts)) ts) [
    | throw e ↦ throw e
    | ok (names, rest) ↦ ok ((false, names), rest)
  ]
]

-- The optional WHERE clause.
unfoldable pub parse_where_of : Statement → Parse Statement
parse_where_of stmt ts =
    if check where_token ts
    then (parse_where >>= λ wc. pure (record stmt { has_where = true; where_clause = wc })) ts
    else ok (stmt, ts)

unfoldable pub parse_select : Parse Statement
parse_select = do
  expect select_token "Parse error: expected SELECT"
  (all, names) ← parse_columns
  expect from_token "Parse error: expected FROM"
  name ← expect identifier_token "Parse error: expected table name"
  stmt ← parse_where_of (record (new_statement select) {
    table_name = name;
    select_columns = names;
    select_all = all;
  })
  accept semicolon_token
  pure stmt

unfoldable pub parse_delete : Parse Statement
parse_delete = do
  expect delete_token "Parse error: expected DELETE"
  expect from_token "Parse error: expected FROM after DELETE"
  name ← expect identifier_token "Parse error: expected table name"
  stmt ← parse_where_of (record (new_statement delete_stmt) { table_name = name })
  accept semicolon_token
  pure stmt

-- The statement that the first token announces; what follows the statement is not looked at.
unfoldable pub parse_statement : Parse Statement
parse_statement ts =
    if check create_token ts
    then parse_create_table ts
    else if check insert_token ts
    then parse_insert ts
    else if check select_token ts
    then parse_select ts
    else if check delete_token ts
    then parse_delete ts
    else fail "Parse error: expected CREATE, INSERT, SELECT, or DELETE" ts

unfoldable pub parse : List Token → Result Statement
parse ts = elim (parse_statement ts) [ throw e ↦ throw e | ok (stmt, _) ↦ ok stmt ]
