-- ===== src/Parser.antt =====
-- src/parser.c and include/parser.h: tokens to a statement.
--
-- A parser whose `current` stands at a token is the list of the tokens from there on. Behind the
-- last token the source reads out of bounds and the model sees TOKEN_EOF: the lexer ends its array
-- with that token, which no parser passes. A statement that is given up holds nothing: freeing it
-- is left out, as are messages and memory that runs out.
pub mod Print
pub mod RoundTrip
pub mod Text
pub mod Passes
pub mod Clauses
pub mod Sound
use threaded_db_api_server.Prelude.{
  ℕ, zero, suc, ◌<◌, ◌≡◌, Bool, true, false, ◌&&◌, ◌||◌, List, [], ◌∷◌, if◌then◌else◌,
}
use threaded_db_api_server.Prelude.Bytes.{Bytes}
use threaded_db_api_server.Errors
use threaded_db_api_server.Errors.{Status, invalid_args, parse_error, Result, ok, err}
use threaded_db_api_server.Lexer.{
  TokenType, Token, token_eof, token_identifier, token_string, token_number, token_comma,
  token_lparen, token_rparen, token_semicolon, token_star, token_insert, token_into, token_values,
  token_select, token_from, token_where, token_equal, ◌is◌,
}
use threaded_db_api_server.Executor.{
  ValueType, value_string, value_number, LiteralValue, InsertStatement, WhereClause,
  SelectStatement, Statement, insert_stmt, select_stmt,
}

abbrev pub Tokens : Type 0
Tokens = List Token

-- What is parsed, and the tokens behind it.
abbrev pub Parser {ℓ} : Type ℓ → Type ℓ
Parser A = Tokens → Result (A × Tokens)

abbrev done {ℓ} : {A : Type ℓ} → A → Parser A
done parsed = λ tokens. ok (parsed, tokens)

-- `if (!step(...)) return 0;`, with the code behind it
infixl 1 ◌>>=◌
abbrev ◌>>=◌ {ℓ κ} : {A : Type ℓ} {B : Type κ} → Parser A → (A → Parser B) → Parser B
(step >>= behind) tokens = Errors.◌>>=◌ (step tokens) λ r. behind r.0 r.1

infixl 1 ◌>>◌
abbrev ◌>>◌ {ℓ} : {A : Type ℓ} → Parser (Unit {0}) → Parser A → Parser A
(step >> behind) tokens = Errors.◌>>=◌ (step tokens) λ r. behind r.1

-- `parser_peek(parser)->type`
abbrev pub parser_peek : Tokens → TokenType
parser_peek [] = token_eof
parser_peek (t ∷ ts) = t.token_type

abbrev pub parser_advance : Tokens → Tokens
parser_advance [] = []
parser_advance (t ∷ ts) = if t.token_type is token_eof then t ∷ ts else ts

-- `if (parser_match(parser, type))`, with the code behind it and that of the other branch
abbrev pub on_match {ℓ} : {A : Type ℓ} → TokenType → Parser A → Parser A → Parser A
on_match type p q ts = if parser_peek ts is type then p (parser_advance ts) else q ts

unfoldable pub parser_skip_semicolons : Tokens → Tokens
parser_skip_semicolons [] = []
parser_skip_semicolons (t ∷ ts) =
    let rest = parser_skip_semicolons ts in if t.token_type is token_semicolon then rest else t ∷ ts

-- `parser_expect_with_message`
unfoldable pub parser_expect : TokenType → Parser (Unit {0})
parser_expect type = on_match type (done tt) (λ ts. err parse_error)

-- The token that a literal or an identifier is copied from, or the error.
abbrev pub Item {ℓ} : Type ℓ → Type ℓ
Item A = Token → Result A

unfoldable pub identifier : Item Bytes
identifier t = if t.token_type is token_identifier then ok t.text else err parse_error

unfoldable pub literal : Item LiteralValue
literal t =
    if t.token_type is token_string
    then ok (record { value_type = value_string; text = t.text })
    else if t.token_type is token_number
    then ok (record { value_type = value_number; text = t.text })
    else err parse_error

-- A token that is an item is consumed.
unfoldable pub parse_item {ℓ} : {A : Type ℓ} → Item A → Parser A
parse_item item [] = err parse_error
parse_item item (t ∷ ts) = Errors.◌>>=◌ (item t) λ a. ok (a, ts)

abbrev pub parse_identifier : Parser Bytes
parse_identifier = parse_item identifier

abbrev pub parse_literal : Parser LiteralValue
parse_literal = parse_item literal

-- `parse_identifier_list` and `parse_literal_list`, whose loops differ in the item: one item, then
-- one behind each comma.
unfoldable mutual
  pub parse_list {ℓ} : {A : Type ℓ} → Item A → Parser (List A)
  parse_list item [] = err parse_error
  parse_list item (t ∷ ts) =
      Errors.◌>>=◌ (item t)
        λ a. Errors.◌>>=◌ (list_tail item ts) λ (more, rest). ok (a ∷ more, rest)

  pub list_tail {ℓ} : {A : Type ℓ} → Item A → Parser (List A)
  list_tail item [] = ok ([], [])
  list_tail item (t ∷ ts) =
      let more = parse_list item ts in if t.token_type is token_comma then more else ok ([], t ∷ ts)

abbrev pub parse_identifier_list : Parser (List Bytes)
parse_identifier_list = parse_list identifier

abbrev pub parse_literal_list : Parser (List LiteralValue)
parse_literal_list = parse_list literal

-- What `memset` leaves of a WHERE clause: the NULL strings are empty ones.
abbrev pub no_where : WhereClause
no_where = record {
  has_condition = false;
  column_name = [];
  value = record { value_type = value_string; text = [] };
}

unfoldable pub parse_where_clause : Parser WhereClause
unfolding parser_expect
parse_where_clause = on_match token_where condition (done no_where)
  where
    condition : Parser WhereClause
    condition = do
      name ← parse_identifier
      parser_expect token_equal
      literal ← parse_literal
      done (record { has_condition = true; column_name = name; value = literal })

-- `( a, b )` behind the table's name
unfoldable pub parse_columns : Parser (List Bytes)
unfolding parser_expect
parse_columns = do names ← parse_identifier_list; parser_expect token_rparen; done names

unfoldable pub parse_insert : Parser Statement
unfolding parser_expect parse_columns
parse_insert = do
  parser_expect token_into
  name ← parse_identifier
  names ← on_match token_lparen parse_columns (done [])
  parser_expect token_values
  parser_expect token_lparen
  literals ← parse_literal_list
  parser_expect token_rparen
  done (insert_stmt (record { table_name = name; columns = names; values = literals }))

-- `*`, or the list of the columns
abbrev Projection : Type 0
Projection = Bool × List Bytes

unfoldable pub parse_projection : Parser Projection
parse_projection =
    on_match token_star (done (true, [])) do names ← parse_identifier_list; done (false, names)

unfoldable pub parse_select : Parser Statement
unfolding parser_expect parse_projection parse_where_clause
parse_select = do
  (all, names) ← parse_projection
  parser_expect token_from
  name ← parse_identifier
  clause ← parse_where_clause
  done (
      select_stmt
        (record { table_name = name; select_all = all; columns = names; where_clause = clause }))

-- Behind the semicolons: one statement, and a semicolon that may end it.
unfoldable pub parse_one : Parser Statement
unfolding parse_insert parse_select
parse_one ts = if parser_peek ts is token_eof then err parse_error else statement ts
  where
    statement : Parser Statement
    statement = do
      stmt ←
          on_match token_insert parse_insert
            (on_match token_select parse_select (λ rest. err parse_error))
      on_match token_semicolon (done stmt) (done stmt)

-- The cursor is read as the tokens from it on, and its move on a failure is left out.
unfoldable pub parse_next_statement : Parser Statement
unfolding parse_one parser_skip_semicolons
parse_next_statement [] = err parse_error
parse_next_statement (t ∷ ts) = parse_one (parser_skip_semicolons (t ∷ ts))

-- `tokens->items[cursor].type != TOKEN_EOF`
unfoldable pub at_end : Statement → Tokens → Result Statement
at_end stmt [] = err parse_error
at_end stmt (t ∷ ts) = if t.token_type is token_eof then ok stmt else err parse_error

unfoldable pub parse_statement : Tokens → Result Statement
unfolding parse_next_statement parser_skip_semicolons at_end
parse_statement tokens =
    Errors.◌>>=◌ (parse_next_statement tokens)
      λ (stmt, rest). at_end stmt (parser_skip_semicolons rest)

-- The strings and lists are gone, and a SELECT has no star and no condition.
unfoldable pub free_statement : Statement → Statement
free_statement (insert_stmt stmt) =
    insert_stmt (record { table_name = []; columns = []; values = [] })
free_statement (select_stmt stmt) =
    select_stmt
      (record { table_name = []; select_all = false; columns = []; where_clause = no_where })
