-- ===== src/Tests/Statements.antt =====
-- SQL texts, their tokens and their statements, of src/lexer.c and src/parser.c.
use threaded_db_api_server.Prelude.{◌≡◌, refl, inl, inr, true, [], ◌∷◌, ◌++◌}
use threaded_db_api_server.Prelude.Bytes.{codes}
use threaded_db_api_server.Errors.{lex_error, ok, err, ◌>>=◌}
use threaded_db_api_server.Lexer.{
  token, token_eof, token_identifier, token_string, token_number, token_comma, token_lparen,
  token_rparen, token_semicolon, token_star, token_insert, token_into, token_values, token_select,
  token_from, tokenize_sql, tokenize_loop, tokenize_number, tokenize_string, tokenize_identifier,
  tokenize_symbol, next_token, keyword_type, strings_equal_ignore_case,
}
use threaded_db_api_server.Lexer.Scan.{scan_word, scan_number, scan_string}
use threaded_db_api_server.Lexer.Ends.{EndsEof, tokenize_sql-err}
use threaded_db_api_server.Lexer.Print.{print_tokens}
use threaded_db_api_server.Lexer.RoundTrip.{tokenize_sql-print_tokens}
use threaded_db_api_server.Executor.{
  value_string, value_number, Statement, insert_stmt, select_stmt,
}
use threaded_db_api_server.Parser.{
  Tokens, parse_statement, parse_next_statement, parse_one, parse_select, parse_projection,
  parse_where_clause, parser_expect, parser_skip_semicolons, parse_item, identifier, at_end,
  no_where,
}
use threaded_db_api_server.Parser.Print.{IsParsed}
use threaded_db_api_server.Parser.Sound.{
  IsScript, parse_statement-IsScript, parse_next_statement-EndsEof,
}
use threaded_db_api_server.Parser.Text.{IsSql, print_statement, parse_statement-print_statement}

insert_tokens :
    tokenize_sql (codes "Insert inTo users VALUES (-12.5,'O''Neil') ;")
    ≡ ok (
        token token_insert (codes "Insert")
        ∷ token token_into (codes "inTo")
        ∷ token token_identifier (codes "users")
        ∷ token token_values (codes "VALUES")
        ∷ token token_lparen (codes "(")
        ∷ token token_number (codes "-12.5")
        ∷ token token_comma (codes ",")
        ∷ token token_string (codes "O'Neil")
        ∷ token token_rparen (codes ")")
        ∷ token token_semicolon (codes ";")
        ∷ token token_eof []
        ∷ [])
unfolding tokenize_sql tokenize_loop next_token tokenize_identifier tokenize_number tokenize_string
    tokenize_symbol scan_word scan_number scan_string keyword_type strings_equal_ignore_case
insert_tokens = refl

dot_tokens : tokenize_sql (codes "1.2.3") ≡ err lex_error
unfolding tokenize_sql tokenize_loop next_token tokenize_number tokenize_symbol scan_number
dot_tokens = refl

open_string : tokenize_sql (codes "'abc") ≡ err lex_error
unfolding tokenize_sql tokenize_loop next_token tokenize_string scan_string
open_string = refl

tokenize_sql-err_example : lex_error ≡ lex_error
tokenize_sql-err_example = tokenize_sql-err (codes "'abc") lex_error open_string

abbrev two_tokens : Tokens
two_tokens = token token_string (codes "it's") ∷ token token_comma (codes ",") ∷ []

tokenize_sql-print_tokens_example :
    tokenize_sql (print_tokens two_tokens) ≡ ok (two_tokens ++ token token_eof [] ∷ [])
tokenize_sql-print_tokens_example = tokenize_sql-print_tokens two_tokens (tt, (refl, tt))

-- INSERT INTO users ( name ) VALUES ( 'O''Neil' , -12.5 )
abbrev insert_two : Statement
insert_two = insert_stmt (record {
  table_name = codes "users";
  columns = codes "name" ∷ [];
  values =
      record { value_type = value_string; text = codes "O'Neil" }
      ∷ record { value_type = value_number; text = codes "-12.5" }
      ∷ [];
})

insert_two-IsSql : IsSql insert_two
unfolding keyword_type strings_equal_ignore_case
insert_two-IsSql = (
  ((refl, (refl, (refl, (refl, (refl, tt))))), refl),
  (((refl, (refl, (refl, (refl, tt)))), refl), tt),
  (
    tt,
    (
      inr (
        codes "12.5",
        refl,
        inr (codes "12", codes "5", refl, (tt, (refl, (refl, tt))), (tt, (refl, tt))),
      ),
      tt,
    ),
  ),
)

parse_statement-print_statement_example :
    (tokenize_sql (print_statement insert_two) >>= λ tokens. parse_statement tokens) ≡ ok insert_two
parse_statement-print_statement_example =
    parse_statement-print_statement insert_two tt insert_two-IsSql

-- select * from users ;
abbrev pub select_tokens : Tokens
select_tokens =
    token token_select (codes "select")
    ∷ token token_star (codes "*")
    ∷ token token_from (codes "from")
    ∷ token token_identifier (codes "users")
    ∷ token token_semicolon (codes ";")
    ∷ token token_eof []
    ∷ []

abbrev pub select_users : Statement
select_users = select_stmt (record {
  table_name = codes "users";
  select_all = true;
  columns = [];
  where_clause = no_where;
})

select_tokens-EndsEof : EndsEof select_tokens
select_tokens-EndsEof = inr (refl, inr (refl, inr (refl, inr (refl, inr (refl, inl (refl, refl))))))

parsed : parse_statement select_tokens ≡ ok select_users
unfolding parse_statement parse_one parse_select parse_projection parse_where_clause parser_expect
    parser_skip_semicolons parse_item identifier at_end
parsed = refl

parse_statement-IsScript_example : IsParsed select_users × IsScript select_tokens select_users
parse_statement-IsScript_example =
    parse_statement-IsScript select_tokens select_users select_tokens-EndsEof parsed

parsed_next : parse_next_statement select_tokens ≡ ok (select_users, token token_eof [] ∷ [])
unfolding parse_next_statement parse_one parse_select parse_projection parse_where_clause
    parser_expect parser_skip_semicolons parse_item identifier
parsed_next = refl

parse_next_statement-EndsEof_example : EndsEof (token token_eof [] ∷ [])
parse_next_statement-EndsEof_example =
    parse_next_statement-EndsEof select_tokens (token token_eof [] ∷ []) select_users
      select_tokens-EndsEof parsed_next
