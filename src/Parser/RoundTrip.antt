-- ===== src/Parser/RoundTrip.antt =====
-- src/parser.c on the tokens of a statement.
use threaded_db_api_server.Prelude.{
  ℕ, zero, suc, ◌≡◌, refl, ap, sym, subst, ◌∙◌, inl, inr, Bool, true, false, List, [], ◌∷◌,
}
use threaded_db_api_server.Prelude.Bytes.{Bytes}
use threaded_db_api_server.Errors.{Result, ok}
use threaded_db_api_server.Lexer.{
  Token, token_eof, token_comma, token_semicolon, token_where, token_rparen, token_lparen,
  token_values, token_from, ◌is◌,
}
use threaded_db_api_server.Executor.{
  ValueType, value_string, value_number, LiteralValue, InsertStatement, WhereClause,
  SelectStatement, Statement, insert_stmt, select_stmt,
}
use threaded_db_api_server.Parser.{
  Tokens, Item, parser_peek, parser_skip_semicolons, parser_expect, identifier, literal, parse_item,
  parse_list, list_tail, parse_where_clause, parse_columns, parse_insert, parse_projection,
  parse_select, parse_one, parse_next_statement, parse_statement, on_match,
}
use threaded_db_api_server.Parser.Print.{
  fixed, identifier_token, literal_token, tail_tokens, list_tokens, name_tokens, column_tokens,
  projection_tokens, condition_tokens, where_tokens, insert_tail, select_tail, statement_tokens,
  semicolons, HasItem, IsProjection, IsWhere, IsParsed,
}

abbrev value : ValueType → Bytes → LiteralValue
value type text = record { value_type = type; text = text }

literal_token-literal : (v : LiteralValue) → literal (literal_token v) ≡ ok v
unfolding literal
literal_token-literal v = go v.value_type v.text
  where
    go :
        (type : ValueType) (text : Bytes)
        → literal (literal_token (value type text)) ≡ ok (value type text)
    go value_string text = refl
    go value_number text = refl

module _ {ℓ} {A : Type ℓ} (item : Item A) (item_token : A → Token)
    (reads : (a : A) → item (item_token a) ≡ ok a) where
  list_tail-tail_tokens :
      (xs : List A) (rest : Tokens)
      → (parser_peek rest is token_comma) ≡ false
      → list_tail item (tail_tokens item_token xs rest) ≡ ok (xs, rest)
  unfolding list_tail tail_tokens
  list_tail-tail_tokens [] [] h = refl
  list_tail-tail_tokens [] (t ∷ rest) h = rw h
  list_tail-tail_tokens (x ∷ xs) rest h = rw (reads x, list_tail-tail_tokens xs rest h)

  parse_list-list_tokens :
      (xs : List A) (rest : Tokens)
      → HasItem xs
      → (parser_peek rest is token_comma) ≡ false
      → parse_list item (list_tokens item_token xs rest) ≡ ok (xs, rest)
  unfolding parse_list list_tokens
  parse_list-list_tokens [] rest has h = absurd has
  parse_list-list_tokens (x ∷ xs) rest has h = rw (reads x, list_tail-tail_tokens xs rest h)

names_lem :
    (names : List Bytes) (rest : Tokens)
    → HasItem names
    → (parser_peek rest is token_comma) ≡ false
    → parse_list identifier (name_tokens names rest) ≡ ok (names, rest)
unfolding identifier
names_lem = parse_list-list_tokens identifier identifier_token (λ s. refl)

literals_lem :
    (values : List LiteralValue) (rest : Tokens)
    → HasItem values
    → (parser_peek rest is token_comma) ≡ false
    → parse_list literal (list_tokens literal_token values rest) ≡ ok (values, rest)
literals_lem = parse_list-list_tokens literal literal_token literal_token-literal

columns_lem :
    (names : List Bytes) (rest : Tokens)
    → on_match token_lparen parse_columns
        (λ ts. ok ([], ts))
        (column_tokens names (fixed token_values ∷ rest))
      ≡ ok (names, fixed token_values ∷ rest)
unfolding parse_columns parser_expect
columns_lem [] rest = refl
columns_lem (name ∷ names) rest =
    rw (names_lem (name ∷ names) (fixed token_rparen ∷ fixed token_values ∷ rest) tt refl)

insert_lem :
    (stmt : InsertStatement) (rest : Tokens)
    → HasItem stmt.values
    → parse_insert (insert_tail stmt rest) ≡ ok (insert_stmt stmt, rest)
unfolding parse_insert parser_expect identifier parse_item
insert_lem stmt rest has = rw (
  columns_lem stmt.columns
      (fixed token_lparen ∷ list_tokens literal_token stmt.values (fixed token_rparen ∷ rest)),
  literals_lem stmt.values (fixed token_rparen ∷ rest) has refl,
)

projection_lem :
    (all : Bool) (names : List Bytes) (rest : Tokens)
    → IsProjection all names
    → parse_projection (projection_tokens all names (fixed token_from ∷ rest))
      ≡ ok ((all, names), fixed token_from ∷ rest)
unfolding parse_projection list_tokens
projection_lem true names rest h = rw h
projection_lem false [] rest h = absurd h
projection_lem false (name ∷ names) rest h =
    rw (names_lem (name ∷ names) (fixed token_from ∷ rest) tt refl)

condition_lem :
    (has : Bool) (name : Bytes) (v : LiteralValue) (rest : Tokens)
    → has ≡ true
    → parse_where_clause (condition_tokens has name v rest)
      ≡ ok (record { has_condition = has; column_name = name; value = v }, rest)
unfolding parse_where_clause identifier parser_expect parse_item
condition_lem false name v rest h = absurd (cc h)
condition_lem true name v rest h = rw (literal_token-literal v)

where_lem :
    (clause : WhereClause) (rest : Tokens)
    → IsWhere clause
    → (parser_peek rest is token_where) ≡ false
    → parse_where_clause (where_tokens clause rest) ≡ ok (clause, rest)
where_lem clause rest (inl has) e =
    condition_lem clause.has_condition clause.column_name clause.value rest has
where_lem clause rest (inr none) e =
    subst (λ c. parse_where_clause (where_tokens c rest) ≡ ok (c, rest)) (sym none)
      (unfold parse_where_clause in rw e)

select_lem :
    (stmt : SelectStatement) (rest : Tokens)
    → IsParsed (select_stmt stmt)
    → (parser_peek rest is token_where) ≡ false
    → parse_select (select_tail stmt rest) ≡ ok (select_stmt stmt, rest)
unfolding parse_select parser_expect identifier parse_item
select_lem stmt rest h e = rw (
  projection_lem stmt.select_all stmt.columns
      (identifier_token stmt.table_name ∷ where_tokens stmt.where_clause rest) h.0,
  where_lem stmt.where_clause rest h.1 e,
)

pub skip_lem :
    (m : ℕ) (ts : Tokens)
    → (parser_peek ts is token_semicolon) ≡ false
    → parser_skip_semicolons (semicolons m ts) ≡ ts
unfolding parser_skip_semicolons
skip_lem zero [] h = refl
skip_lem zero (t ∷ ts) h = rw h
skip_lem (suc m) ts h = skip_lem m ts h

-- A semicolon behind a statement is passed, and no other.
abbrev pub behind : Statement → Tokens → Result (Statement × Tokens)
behind stmt = on_match token_semicolon (λ ts. ok (stmt, ts)) (λ ts. ok (stmt, ts))

one_lem :
    (stmt : Statement) (rest : Tokens)
    → IsParsed stmt
    → (parser_peek rest is token_where) ≡ false
    → parse_one (statement_tokens stmt rest) ≡ behind stmt rest
unfolding parse_one
one_lem (insert_stmt stmt) rest h e = rw (insert_lem stmt rest h)
one_lem (select_stmt stmt) rest h e = rw (select_lem stmt rest h e)

next_lem :
    (m : ℕ) (ts : Tokens)
    → (parser_peek ts is token_semicolon) ≡ false
    → (parser_peek ts is token_eof) ≡ false
    → parse_next_statement (semicolons m ts) ≡ parse_one ts
unfolding parse_next_statement
next_lem zero [] h e = absurd (cc e)
next_lem zero (t ∷ ts) h e = ap parse_one (skip_lem zero (t ∷ ts) h)
next_lem (suc m) ts h e = ap parse_one (skip_lem (suc m) ts h)

pub parse_next_statement-statement_tokens :
    (m : ℕ) (stmt : Statement) (rest : Tokens)
    → IsParsed stmt
    → (parser_peek rest is token_where) ≡ false
    → parse_next_statement (semicolons m (statement_tokens stmt rest)) ≡ behind stmt rest
parse_next_statement-statement_tokens m (insert_stmt stmt) rest h e =
    next_lem m (statement_tokens (insert_stmt stmt) rest) refl refl
    ∙ one_lem (insert_stmt stmt) rest h e
parse_next_statement-statement_tokens m (select_stmt stmt) rest h e =
    next_lem m (statement_tokens (select_stmt stmt) rest) refl refl
    ∙ one_lem (select_stmt stmt) rest h e

pub parse_statement-statement_tokens :
    (m n : ℕ) (stmt : Statement)
    → IsParsed stmt
    → parse_statement (semicolons m (statement_tokens stmt (semicolons n (fixed token_eof ∷ []))))
      ≡ ok stmt
unfolding parse_statement
parse_statement-statement_tokens m zero stmt h =
    rw (parse_next_statement-statement_tokens m stmt (fixed token_eof ∷ []) h refl)
parse_statement-statement_tokens m (suc n) stmt h = rw (
  parse_next_statement-statement_tokens m stmt (semicolons (suc n) (fixed token_eof ∷ [])) h refl,
  skip_lem n (fixed token_eof ∷ []) refl,
)
