-- ===== src/Parser/Items.antt =====
-- The loops of src/parser/parser.cpp over items that commas separate.
use my_db.Base.{ℕ, zero, suc, ◌-◌, ◌≤◌, ◌<◌, ◌≡◌, refl, false, List, [], ◌∷◌, map, length, arith}
use my_db.Base.Bytes.{Bytes}
use my_db.Common.Exception.{ok}
use my_db.Common.Value.{DataType, int_type, text_type}
use my_db.Parser.Lexer.{Token, rparen_token, eof_token}
use my_db.Parser.Primitives.{
  Parse, check, accept, expect, parse_value, parse_column_type, parse_column, parse_items,
}
use my_db.Parser.Parser.{items_until_rparen, parse_insert_value}
use my_db.Parser.Grammar.{
  Literal, number, quoted, name, comma, rparen, separated, column_tokens, literal_tokens,
  column_def, literal_value,
}

-- What the loops need of an item: it is read whole, with the comma behind it, and is not mistaken
-- for the end.
pub record Reads {A B : Type 0} (item : Parse B) (tokens : A → List Token → List Token)
    (value : A → B) : Type 0 where
  pub more : (x : A) (rest : List Token) → item (tokens x (comma ∷ rest)) ≡ ok (value x, rest)
  pub last :
      (x : A) (rest : List Token) → item (tokens x (rparen ∷ rest)) ≡ ok (value x, rparen ∷ rest)
  pub goes_on : (x : A) (rest : List Token) → check rparen_token (tokens x rest) ≡ false
  pub not_end : (x : A) (rest : List Token) → check eof_token (tokens x rest) ≡ false
  pub longer : (x : A) (rest : List Token) → length rest < length (tokens x rest)

module _ {A B : Type 0} (item : Parse B) (tokens : A → List Token → List Token) (value : A → B)
    (reads : Reads item tokens value) where
  items-separated :
      (fuel : ℕ) (xs : List A) (rest : List Token)
      → length xs ≤ fuel
      → parse_items item (suc fuel) (separated tokens xs (rparen ∷ rest))
        ≡ ok (map value xs, rparen ∷ rest)
  unfolding parse_items separated
  items-separated fuel [] rest h = refl
  items-separated zero (x ∷ xs) rest h = absurd (omega arith)
  items-separated (suc fuel) (x ∷ []) rest h =
      rw (reads.goes_on x (rparen ∷ rest), reads.not_end x (rparen ∷ rest), parse_items)
        (rw (reads.last x rest, parse_items))
  items-separated (suc fuel) (x ∷ y ∷ xs) rest h =
      let tail = separated tokens (y ∷ xs) (rparen ∷ rest) in
      rw (reads.goes_on x (comma ∷ tail), reads.not_end x (comma ∷ tail), parse_items)
        (rw (reads.more x tail, items-separated fuel (y ∷ xs) rest (omega arith)))

  length-separated :
      (xs : List A) (rest : List Token) → length xs < length (separated tokens xs (rparen ∷ rest))
  unfolding separated
  length-separated [] rest = omega arith
  length-separated (x ∷ []) rest = omega (arith, reads.longer x (rparen ∷ rest))
  length-separated (x ∷ y ∷ xs) rest = omega (
    arith,
    reads.longer x (comma ∷ separated tokens (y ∷ xs) (rparen ∷ rest)),
    length-separated (y ∷ xs) rest,
  )

  -- The fuel of the loop is enough.
  pub items_until_rparen-separated :
      (xs : List A) (rest : List Token)
      → items_until_rparen item (separated tokens xs (rparen ∷ rest))
        ≡ ok (map value xs, rparen ∷ rest)
  unfolding items_until_rparen
  items_until_rparen-separated xs rest =
      let n = length (separated tokens xs (rparen ∷ rest)) in
      let positive : n ≡ suc (n - 1) = omega (arith, length-separated xs rest) in
      rw positive (items-separated (n - 1) xs rest (omega (arith, length-separated xs rest)))

pub column-Reads : Reads parse_column column_tokens column_def
unfolding parse_column expect parse_column_type accept
column-Reads = record {
  more = λ x rest. column_more x rest;
  last = λ x rest. column_last x rest;
  goes_on = λ x rest. refl;
  not_end = λ x rest. refl;
  longer = λ x rest. omega arith;
}
  where
    column_more :
        (x : Bytes × DataType) (rest : List Token)
        → parse_column (column_tokens x (comma ∷ rest)) ≡ ok (column_def x, rest)
    column_more (n, int_type) rest = refl
    column_more (n, text_type) rest = refl

    column_last :
        (x : Bytes × DataType) (rest : List Token)
        → parse_column (column_tokens x (rparen ∷ rest)) ≡ ok (column_def x, rparen ∷ rest)
    column_last (n, int_type) rest = refl
    column_last (n, text_type) rest = refl

pub literal-Reads : Reads parse_insert_value literal_tokens literal_value
unfolding parse_insert_value parse_value accept
literal-Reads = record {
  more = λ x rest. literal_more x rest;
  last = λ x rest. literal_last x rest;
  goes_on = λ x rest. literal_not_rparen x rest;
  not_end = λ x rest. literal_not_end x rest;
  longer = λ x rest. omega arith;
}
  where
    literal_more :
        (x : Literal) (rest : List Token)
        → parse_insert_value (literal_tokens x (comma ∷ rest)) ≡ ok (literal_value x, rest)
    literal_more (number n) rest = refl
    literal_more (quoted n) rest = refl
    literal_more (name n) rest = refl

    literal_last :
        (x : Literal) (rest : List Token)
        → parse_insert_value (literal_tokens x (rparen ∷ rest))
          ≡ ok (literal_value x, rparen ∷ rest)
    literal_last (number n) rest = refl
    literal_last (quoted n) rest = refl
    literal_last (name n) rest = refl

    literal_not_rparen :
        (x : Literal) (rest : List Token) → check rparen_token (literal_tokens x rest) ≡ false
    literal_not_rparen (number n) rest = refl
    literal_not_rparen (quoted n) rest = refl
    literal_not_rparen (name n) rest = refl

    literal_not_end :
        (x : Literal) (rest : List Token) → check eof_token (literal_tokens x rest) ≡ false
    literal_not_end (number n) rest = refl
    literal_not_end (quoted n) rest = refl
    literal_not_end (name n) rest = refl
