-- ===== src/Parser/Lexer.antt =====
-- src/parser/lexer.h and lexer.cpp
use my_db.Base.{
  ℕ, zero, suc, ◌-◌, Bool, not, ◌&&◌, ◌||◌, List, [], ◌∷◌, map, length, nat_eq, leb, if◌then◌else◌,
}
use my_db.Base.Bytes.{Bytes, bytes_eq, codes}

pub data TokenType : Type 0 where
  select_token insert_token into_token values_token from_token where_token : TokenType
  create_token table_token delete_token int_token text_token : TokenType
  number_token string_token identifier_token : TokenType
  star_token comma_token lparen_token rparen_token semicolon_token equals_token : TokenType
  eof_token unknown_token : TokenType

pub record Token : Type 0 where
  pub type : TokenType
  pub value : Bytes

abbrev pub token : TokenType → Bytes → Token
token t v = record { type = t; value = v }

-- The character classes of <cctype> in the C locale.
abbrev pub is_space : ℕ → Bool
is_space c = nat_eq c 32 || leb 9 c && leb c 13

abbrev pub is_digit : ℕ → Bool
is_digit c = leb 48 c && leb c 57

abbrev pub is_alpha : ℕ → Bool
is_alpha c = leb 65 c && leb c 90 || leb 97 c && leb c 122

-- What may stand in a word, and what may begin one.
abbrev pub is_word_char : ℕ → Bool
is_word_char c = is_alpha c || is_digit c || nat_eq c b'_'

abbrev pub begins_word : ℕ → Bool
begins_word c = is_alpha c || nat_eq c b'_'

unfoldable pub to_upper_char : ℕ → ℕ
to_upper_char c = if leb 97 c && leb c 122 then c - 32 else c

unfoldable pub to_upper : Bytes → Bytes
unfolding to_upper_char
to_upper s = map to_upper_char s

unfoldable pub keyword_type : Bytes → TokenType
unfolding to_upper
keyword_type word =
    let upper = to_upper word in
    if bytes_eq upper (codes "SELECT")
    then select_token
    else if bytes_eq upper (codes "INSERT")
    then insert_token
    else if bytes_eq upper (codes "INTO")
    then into_token
    else if bytes_eq upper (codes "VALUES")
    then values_token
    else if bytes_eq upper (codes "FROM")
    then from_token
    else if bytes_eq upper (codes "WHERE")
    then where_token
    else if bytes_eq upper (codes "CREATE")
    then create_token
    else if bytes_eq upper (codes "TABLE")
    then table_token
    else if bytes_eq upper (codes "DELETE")
    then delete_token
    else if bytes_eq upper (codes "INT")
    then int_token
    else if bytes_eq upper (codes "TEXT")
    then text_token
    else identifier_token

-- The loops that gather the characters of one token: those that pass the test, and the rest.
unfoldable pub gather : (ℕ → Bool) → Bytes → Bytes × Bytes
gather p [] = ([], [])
gather p (c ∷ cs) = let (word, rest) = gather p cs in if p c then (c ∷ word, rest) else ([], c ∷ cs)

-- The closing quote is skipped if there is one.
abbrev pub skip_one : Bytes → Bytes
skip_one [] = []
skip_one (c ∷ cs) = cs

abbrev pub is_symbol : ℕ → Bool
is_symbol c =
    nat_eq c b'*'
    || nat_eq c b','
    || nat_eq c b'('
    || nat_eq c b')'
    || nat_eq c b';'
    || nat_eq c b'='

abbrev pub symbol_type : ℕ → TokenType
symbol_type c =
    if nat_eq c b'*'
    then star_token
    else if nat_eq c b','
    then comma_token
    else if nat_eq c b'('
    then lparen_token
    else if nat_eq c b')'
    then rparen_token
    else if nat_eq c b';'
    then semicolon_token
    else equals_token

abbrev pub quote : ℕ
quote = 39

-- One round of the loop of `handleInput`: the tokens that it adds, none for white space, and the
-- input that is left.
unfoldable pub lex_one : ℕ → Bytes → List Token × Bytes
unfolding gather
lex_one c cs =
    if is_space c
    then ([], cs)
    else if is_symbol c
    then (token (symbol_type c) (c ∷ []) ∷ [], cs)
    else if nat_eq c quote
    then (let (str, rest) = gather (λ d. not (nat_eq d quote)) cs in
        (token string_token str ∷ [], skip_one rest))
    else if is_digit c
    then (let (num, rest) = gather is_digit cs in (token number_token (c ∷ num) ∷ [], rest))
    else if begins_word c
    then (let (word, rest) = gather is_word_char cs in
        (token (keyword_type (c ∷ word)) (c ∷ word) ∷ [], rest))
    else (token unknown_token (c ∷ []) ∷ [], cs)

abbrev pub prepend : List Token → List Token → List Token
prepend [] ts = ts
prepend (t ∷ _) ts = t ∷ ts

-- The loop. Each round takes a character or more, so the length of the input is enough fuel.
unfoldable pub lex_loop : ℕ → Bytes → List Token
lex_loop fuel [] = token eof_token [] ∷ []
lex_loop zero (c ∷ cs) = token eof_token [] ∷ []
lex_loop (suc fuel) (c ∷ cs) = let (ts, rest) = lex_one c cs in prepend ts (lex_loop fuel rest)

unfoldable pub handle_input : Bytes → List Token
unfolding lex_loop
handle_input input = lex_loop (length input) input
