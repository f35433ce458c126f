-- ===== src/Parser/Primitives.antt =====
-- The helpers of the parser (src/parser/parser.cpp): its position in the token vector is the list of
-- the tokens that are left.
use my_db.Base.{ℕ, zero, suc, nat_eq, Bool, true, false, ◌||◌, List, [], ◌∷◌, String, if◌then◌else◌}
use my_db.Base.Bytes.{Bytes, codes}
use my_db.Common.Exception.{Result, ok, throw, parse_error}
use my_db.Parser.Lexer.{
  TokenType, Token, token, select_token, insert_token, into_token, values_token, from_token,
  where_token, create_token, table_token, delete_token, int_token, text_token, number_token,
  string_token, identifier_token, star_token, comma_token, lparen_token, rparen_token,
  semicolon_token, equals_token, eof_token, unknown_token,
}
use my_db.Parser.Statement.{ColumnDef}

-- The enumerators' numbers.
abbrev pub type_code : TokenType → ℕ
type_code select_token = 0
type_code insert_token = 1
type_code into_token = 2
type_code values_token = 3
type_code from_token = 4
type_code where_token = 5
type_code create_token = 6
type_code table_token = 7
type_code delete_token = 8
type_code int_token = 9
type_code text_token = 10
type_code number_token = 11
type_code string_token = 12
type_code identifier_token = 13
type_code star_token = 14
type_code comma_token = 15
type_code lparen_token = 16
type_code rparen_token = 17
type_code semicolon_token = 18
type_code equals_token = 19
type_code eof_token = 20
type_code unknown_token = 21

abbrev pub token_type_eq : TokenType → TokenType → Bool
token_type_eq a b = nat_eq (type_code a) (type_code b)

-- A parser takes the tokens that are left, and returns a value and those left then, or throws.
abbrev pub Parse {ℓ} : Type ℓ → Type ℓ
Parse A = List Token → Result (A × List Token)

infixl 5 ◌>>=◌ ◌>>◌
abbrev pub ◌>>=◌ {ℓ} : {A B : Type ℓ} → Parse A → (A → Parse B) → Parse B
◌>>=◌ m f ts = elim (m ts) [ throw e ↦ throw e | ok (a, rest) ↦ f a rest ]

abbrev pub ◌>>◌ {ℓ} : {A B : Type ℓ} → Parse A → Parse B → Parse B
m >> k = m >>= λ _. k

abbrev pub pure {ℓ} : {A : Type ℓ} → A → Parse A
pure a ts = ok (a, ts)

-- `current`. The vector ends with an end-of-file token, which `advance` does not pass.
abbrev pub current : List Token → Token
current [] = token eof_token []
current (t ∷ _) = t

abbrev pub advance : List Token → List Token
advance [] = []
advance (t ∷ ts) = if token_type_eq t.type eof_token then t ∷ ts else ts

abbrev pub check : TokenType → List Token → Bool
check ty ts = token_type_eq (current ts).type ty

-- `match`: the token is passed if it is of the type.
unfoldable pub accept : TokenType → Parse Bool
accept ty ts = if check ty ts then ok (true, advance ts) else ok (false, ts)

unfoldable pub fail {ℓ} : {A : Type ℓ} → String → Parse A
fail msg ts = throw (parse_error msg (current ts).value)

unfoldable pub expect : TokenType → String → Parse Bytes
unfolding fail
expect ty msg ts = if check ty ts then ok ((current ts).value, advance ts) else fail msg ts

-- A test of the current token that passes nothing.
unfoldable pub peek : (List Token → Bool) → Parse Bool
peek p ts = ok (p ts, ts)

-- A number, a string or an identifier.
abbrev pub at_value : List Token → Bool
at_value ts = check number_token ts || check string_token ts || check identifier_token ts

unfoldable pub parse_value : String → Parse Bytes
unfolding fail
parse_value msg ts = if at_value ts then ok ((current ts).value, advance ts) else fail msg ts

unfoldable pub parse_column_type : Parse Bytes
unfolding fail
parse_column_type ts =
    if check int_token ts
    then ok (codes "INT", advance ts)
    else if check text_token ts
    then ok (codes "TEXT", advance ts)
    else fail "Parse error: expected column type INT or TEXT" ts

-- One column definition, with the comma behind it if there is one.
unfoldable pub parse_column : Parse ColumnDef
unfolding expect parse_column_type accept
parse_column = do
  name ← expect identifier_token "Parse error: expected column name"
  type ← parse_column_type
  accept comma_token
  pure (record { name = name; type = type })

-- The loops up to the closing parenthesis. Each round passes a token or more, so the number of
-- tokens is enough fuel.
unfoldable pub parse_items {ℓ} : {A : Type ℓ} → Parse A → ℕ → Parse (List A)
parse_items item zero ts = ok ([], ts)
parse_items item (suc fuel) ts = elim (check rparen_token ts || check eof_token ts) [
  | true ↦ ok ([], ts)
  | false ↦ elim (item ts) [
    | throw e ↦ throw e
    | ok (a, rest) ↦ elim (parse_items item fuel rest) [
      | throw e ↦ throw e
      | ok (as', rest') ↦ ok (a ∷ as', rest')
    ]
  ]
]
