-- ===== src/Parser/Grammar.antt =====
-- The language that src/parser/parser.cpp is to accept: queries, the tokens that write them and the
-- statements that they stand for.
use my_db.Base.{Bool, true, false, Option, none, some, List, [], ◌∷◌, map}
use my_db.Base.Bytes.{Bytes, codes}
use my_db.Common.Value.{DataType, int_type, text_type}
use my_db.Parser.Lexer.{
  Token, token, select_token, insert_token, into_token, values_token, from_token, where_token,
  create_token, table_token, delete_token, int_token, text_token, number_token, string_token,
  identifier_token, star_token, comma_token, lparen_token, rparen_token, semicolon_token,
  equals_token, eof_token,
}
use my_db.Parser.Statement.{
  Statement, ColumnDef, new_statement, create_table, insert, select, delete_stmt,
}

-- How a value is written.
pub data Literal : Type 0 where
  number quoted name : Bytes → Literal

pub record Condition : Type 0 where
  pub column : Bytes
  pub value : Literal

pub data Query : Type 0 where
  create_query : Bytes → List (Bytes × DataType) → Query
  insert_query : Bytes → List Literal → Query
  -- the first name, the others, the table, the condition
  select_query : Bytes → List Bytes → Bytes → Option Condition → Query
  select_all_query : Bytes → Option Condition → Query
  delete_query : Bytes → Option Condition → Query

abbrev pub word : Bytes → Token
word = token identifier_token

abbrev pub literal_token : Literal → Token
literal_token (number n) = token number_token n
literal_token (quoted s) = token string_token s
literal_token (name n) = word n

abbrev pub literal_value : Literal → Bytes
literal_value (number n) = n
literal_value (quoted s) = s
literal_value (name n) = n

abbrev pub type_token : DataType → Token
type_token int_type = token int_token (codes "INT")
type_token text_type = token text_token (codes "TEXT")

abbrev pub type_name : DataType → Bytes
type_name int_type = codes "INT"
type_name text_type = codes "TEXT"

abbrev pub comma : Token
comma = token comma_token (codes ",")

abbrev pub lparen : Token
lparen = token lparen_token (codes "(")

abbrev pub rparen : Token
rparen = token rparen_token (codes ")")

abbrev pub star : Token
star = token star_token (codes "*")

abbrev pub equals : Token
equals = token equals_token (codes "=")

abbrev pub semicolon : Token
semicolon = token semicolon_token (codes ";")

abbrev pub eof : Token
eof = token eof_token []

-- Items with a comma between them, before `rest`.
unfoldable pub separated {ℓ} :
    {A : Type ℓ} → (A → List Token → List Token) → List A → List Token → List Token
separated item [] rest = rest
separated item (x ∷ []) rest = item x rest
separated item (x ∷ y ∷ xs) rest = item x (comma ∷ separated item (y ∷ xs) rest)

abbrev pub column_tokens : Bytes × DataType → List Token → List Token
column_tokens (n, t) rest = word n ∷ type_token t ∷ rest

abbrev pub literal_tokens : Literal → List Token → List Token
literal_tokens v rest = literal_token v ∷ rest

abbrev pub name_tokens : Bytes → List Token → List Token
name_tokens n rest = word n ∷ rest

abbrev pub condition_tokens : Option Condition → List Token → List Token
condition_tokens none rest = rest
condition_tokens (some c) rest =
    token where_token (codes "WHERE") ∷ word c.column ∷ equals ∷ literal_token c.value ∷ rest

-- A semicolon may end the statement.
abbrev pub end_tokens : Bool → List Token
end_tokens true = semicolon ∷ eof ∷ []
end_tokens false = eof ∷ []

unfoldable pub query_tokens : Query → Bool → List Token
query_tokens (create_query table columns) semi =
    token create_token (codes "CREATE")
    ∷ token table_token (codes "TABLE")
    ∷ word table
    ∷ lparen
    ∷ separated column_tokens columns (rparen ∷ end_tokens semi)
query_tokens (insert_query table values) semi =
    token insert_token (codes "INSERT")
    ∷ token into_token (codes "INTO")
    ∷ word table
    ∷ token values_token (codes "VALUES")
    ∷ lparen
    ∷ separated literal_tokens values (rparen ∷ end_tokens semi)
query_tokens (select_query first others table c) semi =
    token select_token (codes "SELECT")
    ∷ separated name_tokens (first ∷ others)
        (token from_token (codes "FROM") ∷ word table ∷ condition_tokens c (end_tokens semi))
query_tokens (select_all_query table c) semi =
    token select_token (codes "SELECT")
    ∷ star
    ∷ token from_token (codes "FROM")
    ∷ word table
    ∷ condition_tokens c (end_tokens semi)
query_tokens (delete_query table c) semi =
    token delete_token (codes "DELETE")
    ∷ token from_token (codes "FROM")
    ∷ word table
    ∷ condition_tokens c (end_tokens semi)

abbrev pub column_def : Bytes × DataType → ColumnDef
column_def (n, t) = record { name = n; type = type_name t }

abbrev pub with_condition : Option Condition → Statement → Statement
with_condition none s = s
with_condition (some c) s = record s {
  has_where = true;
  where_clause = record { column = c.column; value = literal_value c.value };
}

unfoldable pub query_statement : Query → Statement
query_statement (create_query table columns) = record (new_statement create_table) {
  table_name = table;
  columns = map column_def columns;
}
query_statement (insert_query table values) = record (new_statement insert) {
  table_name = table;
  values = map literal_value values;
}
query_statement (select_query first others table c) =
    with_condition c
      (record (new_statement select) { table_name = table; select_columns = first ∷ others })
query_statement (select_all_query table c) =
    with_condition c (record (new_statement select) { table_name = table; select_all = true })
query_statement (delete_query table c) =
    with_condition c (record (new_statement delete_stmt) { table_name = table })
