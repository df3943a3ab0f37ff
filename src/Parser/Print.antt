-- ===== src/Parser/Print.antt =====
-- The tokens of a statement, as the grammar of src/parser.c and README.md writes them, in front of
-- the tokens behind the statement.
use threaded_db_api_server.Prelude.{ℕ, zero, suc, ◌≡◌, ◌⊎◌, Bool, true, false, List, [], ◌∷◌}
use threaded_db_api_server.Prelude.Bytes.{Bytes}
use threaded_db_api_server.Lexer.{
  TokenType, Token, token, token_identifier, token_string, token_number, token_comma, token_lparen,
  token_rparen, token_semicolon, token_star, token_insert, token_into, token_values, token_select,
  token_from, token_where, token_equal,
}
use threaded_db_api_server.Lexer.Print.{spelling}
use threaded_db_api_server.Executor.{
  ValueType, value_string, value_number, LiteralValue, InsertStatement, WhereClause,
  SelectStatement, Statement, insert_stmt, select_stmt,
}
use threaded_db_api_server.Parser.{Tokens, no_where}

abbrev pub fixed : TokenType → Token
fixed type = token type (spelling type)

abbrev pub identifier_token : Bytes → Token
identifier_token = token token_identifier

abbrev pub literal_type : ValueType → TokenType
literal_type value_string = token_string
literal_type value_number = token_number

abbrev pub literal_token : LiteralValue → Token
literal_token v = token (literal_type v.value_type) v.text

module _ {ℓ} {A : Type ℓ} (item_token : A → Token) where
  unfoldable pub tail_tokens : List A → Tokens → Tokens
  tail_tokens [] rest = rest
  tail_tokens (x ∷ xs) rest = fixed token_comma ∷ item_token x ∷ tail_tokens xs rest

  unfoldable pub list_tokens : List A → Tokens → Tokens
  list_tokens [] rest = rest
  list_tokens (x ∷ xs) rest = item_token x ∷ tail_tokens xs rest

abbrev pub name_tokens : List Bytes → Tokens → Tokens
name_tokens = list_tokens identifier_token

abbrev pub column_tokens : List Bytes → Tokens → Tokens
column_tokens [] rest = rest
column_tokens (name ∷ names) rest =
    fixed token_lparen ∷ name_tokens (name ∷ names) (fixed token_rparen ∷ rest)

-- The tokens behind INSERT.
abbrev pub insert_tail : InsertStatement → Tokens → Tokens
insert_tail stmt rest =
    fixed token_into
    ∷ identifier_token stmt.table_name
    ∷ column_tokens stmt.columns (
        fixed token_values
        ∷ fixed token_lparen
        ∷ list_tokens literal_token stmt.values (fixed token_rparen ∷ rest))

abbrev pub projection_tokens : Bool → List Bytes → Tokens → Tokens
projection_tokens true names rest = fixed token_star ∷ rest
projection_tokens false names rest = name_tokens names rest

abbrev pub condition_tokens : Bool → Bytes → LiteralValue → Tokens → Tokens
condition_tokens false name value rest = rest
condition_tokens true name value rest =
    fixed token_where ∷ identifier_token name ∷ fixed token_equal ∷ literal_token value ∷ rest

abbrev pub where_tokens : WhereClause → Tokens → Tokens
where_tokens clause = condition_tokens clause.has_condition clause.column_name clause.value

-- The tokens behind SELECT.
abbrev pub select_tail : SelectStatement → Tokens → Tokens
select_tail stmt rest =
    projection_tokens stmt.select_all stmt.columns
      (fixed token_from ∷ identifier_token stmt.table_name ∷ where_tokens stmt.where_clause rest)

abbrev pub statement_tokens : Statement → Tokens → Tokens
statement_tokens (insert_stmt stmt) rest = fixed token_insert ∷ insert_tail stmt rest
statement_tokens (select_stmt stmt) rest = fixed token_select ∷ select_tail stmt rest

abbrev pub semicolons : ℕ → Tokens → Tokens
semicolons zero rest = rest
semicolons (suc n) rest = fixed token_semicolon ∷ semicolons n rest

abbrev pub HasItem {ℓ} : {A : Type ℓ} → List A → Type 0
HasItem [] = ⊥
HasItem (x ∷ xs) = Unit

-- A list of columns has a column, `*` has none.
abbrev pub IsProjection : Bool → List Bytes → Type 0
IsProjection true names = names ≡ []
IsProjection false names = HasItem names

-- Without a condition the clause holds nothing.
abbrev pub IsWhere : WhereClause → Type 0
IsWhere clause = (clause.has_condition ≡ true) ⊎ (clause ≡ no_where)

-- What a parse can return: INSERT has a value, SELECT its projection and its clause as above.
abbrev pub IsParsed : Statement → Type 0
IsParsed (insert_stmt stmt) = HasItem stmt.values
IsParsed (select_stmt stmt) = IsProjection stmt.select_all stmt.columns × IsWhere stmt.where_clause
