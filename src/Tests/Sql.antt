-- ===== src/Tests/Sql.antt =====
-- SQL at small inputs (src/parser).
use my_db.Base.{true, ◌≡◌, refl, some, [], ◌∷◌}
use my_db.Base.Bytes.{codes}
use my_db.Common.Exception.{ok, throw, parse_error}
use my_db.Parser.Lexer.{
  to_upper_char, to_upper, keyword_type, gather, lex_one, lex_loop, handle_input,
}
use my_db.Parser.Primitives.{
  accept, fail, expect, parse_value, parse_column_type, parse_column, parse_items,
}
use my_db.Parser.Parser.{
  items_until_rparen, parse_create_table, parse_insert_value, parse_insert, parse_where,
  parse_names, parse_columns, parse_where_of, parse_select, parse_delete, parse_statement, parse,
}
use my_db.Parser.Grammar.{
  Query, number, quoted, name, select_query, insert_query, separated, query_tokens, query_statement,
}
use my_db.Parser.Accepts.{parse-query_tokens}

program : Unit {0}
unfolding to_upper_char to_upper keyword_type gather lex_one lex_loop handle_input accept fail
    expect parse_value parse_column_type parse_column parse_items items_until_rparen
    parse_create_table parse_insert_value parse_insert parse_where parse_names parse_columns
    parse_where_of parse_select parse_delete parse_statement parse separated query_tokens
    query_statement
program = tt

abbrev names_where : Query
names_where =
    select_query (codes "name") (codes "grade" ∷ []) (codes "students")
      (some (record { column = codes "id"; value = number (codes "7") }))

select_run :
    parse (handle_input (codes "select name, grade FROM students WHERE id = 7;"))
    ≡ ok (query_statement names_where)
unfolding program
select_run = refl

insert_run :
    parse (handle_input (codes "INSERT INTO students VALUES (1, 'Al ice', bob)"))
    ≡ ok (
        query_statement (
          insert_query
            (codes "students")
            (number (codes "1") ∷ quoted (codes "Al ice") ∷ name (codes "bob") ∷ [])))
unfolding program
insert_run = refl

-- Commas between values are optional, and what follows a statement is ignored.
lenient_run :
    parse (handle_input (codes "INSERT INTO t VALUES (1 2,) DROP"))
    ≡ ok (query_statement (insert_query (codes "t") (number (codes "1") ∷ number (codes "2") ∷ [])))
unfolding program
lenient_run = refl

-- A minus sign is no part of a number.
negative_run :
    parse (handle_input (codes "INSERT INTO t VALUES (-5)"))
    ≡ throw (parse_error "Parse error: expected a value" (codes "-"))
unfolding program
negative_run = refl

parse-query_tokens_example :
    parse (query_tokens names_where true) ≡ ok (query_statement names_where)
parse-query_tokens_example = parse-query_tokens names_where true
