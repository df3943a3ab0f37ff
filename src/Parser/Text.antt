-- ===== src/Parser/Text.antt =====
-- src/lexer.c and src/parser.c on the text of a statement.
use threaded_db_api_server.Prelude.{
  ◌≡◌, ◌∙◌, refl, ap, sym, Bool, true, false, List, [], ◌∷◌, ◌++◌, All,
}
use threaded_db_api_server.Prelude.Bytes.{Bytes}
use threaded_db_api_server.Errors.{ok, ◌>>=◌}
use threaded_db_api_server.Lexer.{
  Token, token_identifier, token_eof, token_comma, token_lparen, token_rparen, token_values,
  token_from, TokenType, token_semicolon, token_star, token_equal, token_insert, token_into,
  token_select, token_where, tokenize_sql, keyword_type, strings_equal_ignore_case,
}
use threaded_db_api_server.Lexer.Print.{spelling, HasByte, print_tokens, IsText, IsToken}
use threaded_db_api_server.Lexer.RoundTrip.{tokenize_sql-print_tokens}
use threaded_db_api_server.Executor.{LiteralValue, Statement, insert_stmt, select_stmt}
use threaded_db_api_server.Parser.{Tokens, parse_statement}
use threaded_db_api_server.Parser.Print.{
  fixed, identifier_token, literal_token, literal_type, tail_tokens, list_tokens, column_tokens,
  projection_tokens, condition_tokens, where_tokens, statement_tokens, IsParsed,
}
use threaded_db_api_server.Parser.RoundTrip.{parse_statement-statement_tokens}

pub print_statement : Statement → Bytes
print_statement stmt = print_tokens (statement_tokens stmt [])

-- A name that is no keyword.
abbrev pub IsName : Bytes → Type 0
IsName = IsText token_identifier

abbrev pub IsLiteral : LiteralValue → Type 0
IsLiteral v = IsText (literal_type v.value_type) v.text

abbrev pub IsCondition : Bool → Bytes → LiteralValue → Type 0
IsCondition false name v = Unit
IsCondition true name v = IsName name × IsLiteral v

-- Names are names, and numbers are written as numbers.
abbrev pub IsSql : Statement → Type 0
IsSql (insert_stmt stmt) =
    IsName stmt.table_name × All IsName stmt.columns × All IsLiteral stmt.values
IsSql (select_stmt stmt) =
    IsName stmt.table_name
    × All IsName stmt.columns
    × IsCondition stmt.where_clause.has_condition stmt.where_clause.column_name
        stmt.where_clause.value

module _ {ℓ} {A : Type ℓ} (item_token : A → Token) where
  tail_tokens-append :
      (xs : List A) (r q : Tokens)
      → tail_tokens item_token xs (r ++ q) ≡ tail_tokens item_token xs r ++ q
  unfolding tail_tokens
  tail_tokens-append [] r q = refl
  tail_tokens-append (x ∷ xs) r q =
      ap (λ ts. fixed token_comma ∷ item_token x ∷ ts) (tail_tokens-append xs r q)

  list_tokens-append :
      (xs : List A) (r q : Tokens)
      → list_tokens item_token xs (r ++ q) ≡ list_tokens item_token xs r ++ q
  unfolding list_tokens
  list_tokens-append [] r q = refl
  list_tokens-append (x ∷ xs) r q = ap (λ ts. item_token x ∷ ts) (tail_tokens-append xs r q)

  tail_tokens-All :
      (P : A → Type 0) (xs : List A) (rest : Tokens)
      → ((a : A) → P a → IsToken (item_token a))
      → All P xs
      → All IsToken rest
      → All IsToken (tail_tokens item_token xs rest)
  unfolding tail_tokens
  tail_tokens-All P [] rest h hs hr = hr
  tail_tokens-All P (x ∷ xs) rest h hs hr = (refl, (h x hs.0, tail_tokens-All P xs rest h hs.1 hr))

  list_tokens-All :
      (P : A → Type 0) (xs : List A) (rest : Tokens)
      → ((a : A) → P a → IsToken (item_token a))
      → All P xs
      → All IsToken rest
      → All IsToken (list_tokens item_token xs rest)
  unfolding list_tokens
  list_tokens-All P [] rest h hs hr = hr
  list_tokens-All P (x ∷ xs) rest h hs hr = (h x hs.0, tail_tokens-All P xs rest h hs.1 hr)

column_tokens-append :
    (names : List Bytes) (r q : Tokens) → column_tokens names (r ++ q) ≡ column_tokens names r ++ q
column_tokens-append [] r q = refl
column_tokens-append (name ∷ names) r q =
    ap (λ ts. fixed token_lparen ∷ ts)
      (list_tokens-append identifier_token (name ∷ names) (fixed token_rparen ∷ r) q)

projection_tokens-append :
    (all : Bool) (names : List Bytes) (r q : Tokens)
    → projection_tokens all names (r ++ q) ≡ projection_tokens all names r ++ q
projection_tokens-append true names r q = refl
projection_tokens-append false names r q = list_tokens-append identifier_token names r q

condition_tokens-append :
    (has : Bool) (name : Bytes) (v : LiteralValue) (r q : Tokens)
    → condition_tokens has name v (r ++ q) ≡ condition_tokens has name v r ++ q
condition_tokens-append true name v r q = refl
condition_tokens-append false name v r q = refl

pub statement_tokens-append :
    (stmt : Statement) (r q : Tokens)
    → statement_tokens stmt (r ++ q) ≡ statement_tokens stmt r ++ q
statement_tokens-append (insert_stmt stmt) r q =
    let front : Tokens → Tokens =
      λ ts. fixed token_insert ∷ fixed token_into ∷ identifier_token stmt.table_name ∷ ts in
    let values : Tokens → Tokens = λ ts. fixed token_values ∷ fixed token_lparen ∷ ts in
    ap (λ ts. front (column_tokens stmt.columns (values ts)))
      (list_tokens-append literal_token stmt.values (fixed token_rparen ∷ r) q)
    ∙ ap front (
        column_tokens-append stmt.columns
          (values (list_tokens literal_token stmt.values (fixed token_rparen ∷ r))) q)
statement_tokens-append (select_stmt stmt) r q =
    let clause = stmt.where_clause in
    let from : Tokens → Tokens = λ ts. fixed token_from ∷ identifier_token stmt.table_name ∷ ts in
    ap (λ ts. fixed token_select ∷ projection_tokens stmt.select_all stmt.columns (from ts))
      (condition_tokens-append clause.has_condition clause.column_name clause.value r q)
    ∙ ap (λ ts. fixed token_select ∷ ts)
        (projection_tokens-append stmt.select_all stmt.columns (from (where_tokens clause r)) q)

fixed-IsToken : (type : TokenType) → HasByte (spelling type) → IsToken (fixed type)
unfolding keyword_type strings_equal_ignore_case
fixed-IsToken token_comma h = refl
fixed-IsToken token_lparen h = refl
fixed-IsToken token_rparen h = refl
fixed-IsToken token_semicolon h = refl
fixed-IsToken token_star h = refl
fixed-IsToken token_equal h = refl
fixed-IsToken token_insert h = ((refl, (refl, (refl, (refl, (refl, (refl, tt)))))), refl)
fixed-IsToken token_into h = ((refl, (refl, (refl, (refl, tt)))), refl)
fixed-IsToken token_values h = ((refl, (refl, (refl, (refl, (refl, (refl, tt)))))), refl)
fixed-IsToken token_select h = ((refl, (refl, (refl, (refl, (refl, (refl, tt)))))), refl)
fixed-IsToken token_from h = ((refl, (refl, (refl, (refl, tt)))), refl)
fixed-IsToken token_where h = ((refl, (refl, (refl, (refl, (refl, tt))))), refl)
fixed-IsToken _ h = absurd h

columns-All :
    (names : List Bytes) (rest : Tokens)
    → All IsName names
    → All IsToken rest
    → All IsToken (column_tokens names rest)
columns-All [] rest h hr = hr
columns-All (name ∷ names) rest h hr =
    (refl, list_tokens-All identifier_token IsName (name ∷ names) _ (λ _ n. n) h (refl, hr))

projection-All :
    (all : Bool) (names : List Bytes) (rest : Tokens)
    → All IsName names
    → All IsToken rest
    → All IsToken (projection_tokens all names rest)
projection-All true names rest h hr = (refl, hr)
projection-All false names rest h hr =
    list_tokens-All identifier_token IsName names rest (λ _ n. n) h hr

condition-All :
    (has : Bool) (name : Bytes) (v : LiteralValue)
    → IsCondition has name v
    → All IsToken (condition_tokens has name v [])
condition-All false name v h = tt
condition-All true name v h = (fixed-IsToken token_where tt, (h.0, (refl, (h.1, tt))))

statement_tokens-All : (stmt : Statement) → IsSql stmt → All IsToken (statement_tokens stmt [])
statement_tokens-All (insert_stmt stmt) (table, names, values) =
    let list =
      list_tokens-All literal_token IsLiteral stmt.values (fixed token_rparen ∷ []) (λ _ n. n)
        values (refl, tt) in
    let rest =
      columns-All stmt.columns
        (fixed token_values
          ∷ fixed token_lparen
          ∷ list_tokens literal_token stmt.values (fixed token_rparen ∷ []))
        names (fixed-IsToken token_values tt, (refl, list)) in
    (fixed-IsToken token_insert tt, (fixed-IsToken token_into tt, (table, rest)))
statement_tokens-All (select_stmt stmt) (table, names, condition) =
    let clause = stmt.where_clause in
    let rest = condition-All clause.has_condition clause.column_name clause.value condition in
    (
      fixed-IsToken token_select tt,
      projection-All stmt.select_all stmt.columns _ names
          (fixed-IsToken token_from tt, (table, rest)),
    )

-- A statement as a parse returns it (`IsParsed`), whose names are words but no keywords and whose
-- numbers are written as numbers (`IsSql`), is written out as SQL text, its tokens apart by spaces
-- and the quotes of its strings doubled. Lexer and parser read that text back as the statement.
pub parse_statement-print_statement :
    (stmt : Statement)
    → IsParsed stmt
    → IsSql stmt
    → (tokenize_sql (print_statement stmt) >>= λ tokens. parse_statement tokens) ≡ ok stmt
unfolding print_statement
parse_statement-print_statement stmt h sql =
    rw
      (
        tokenize_sql-print_tokens (statement_tokens stmt []) (statement_tokens-All stmt sql),
        sym (statement_tokens-append stmt [] (fixed token_eof ∷ [])),
      )
      (parse_statement-statement_tokens 0 0 stmt h)
