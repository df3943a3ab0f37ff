-- ===== src/DbApi/Prepare.antt =====
-- src/db_api.c: the checks before the lock.
use threaded_db_api_server.Prelude.{
  ◌≡◌, ◌↔◌, ◌⊎◌, inl, inr, refl, sym, ap, ◌∙◌, Bool, true, false, Bool-cases, not, ◌&&◌, [], ◌∷◌,
  if◌then◌else◌,
}
use threaded_db_api_server.Prelude.Bytes.{Bytes, codes}
use threaded_db_api_server.Errors.{Status, invalid_args, parse_error, Result, ok, err, ◌>>=◌}
use threaded_db_api_server.Lexer.{
  token_eof, token_semicolon, token_select, token_insert, ◌is◌, tokenize_sql,
}
use threaded_db_api_server.Lexer.Ends.{tokenize_sql-EndsEof}
use threaded_db_api_server.Executor.{Statement}
use threaded_db_api_server.Parser.{
  Tokens, parser_peek, parser_skip_semicolons, parse_one, parse_next_statement, at_end,
  parse_statement,
}
use threaded_db_api_server.Parser.Print.{IsParsed}
use threaded_db_api_server.Parser.Sound.{IsScript, parse_statement-IsScript}
use threaded_db_api_server.DbApi.{
  Reply, failed, Prepared, rejected, prepared, reject, at_eof, check_single, prepare_tokens,
  prepare_lexed, prepare_trimmed, prepare_sql, trim_whitespace,
}

skip_skip :
    (ts : Tokens) → parser_skip_semicolons (parser_skip_semicolons ts) ≡ parser_skip_semicolons ts
unfolding parser_skip_semicolons
skip_skip [] = refl
skip_skip (t ∷ ts) = go (Bool-cases (t.token_type is token_semicolon)) (skip_skip ts)
  where
    go :
        ((t.token_type is token_semicolon) ≡ true) ⊎ ((t.token_type is token_semicolon) ≡ false)
        → parser_skip_semicolons (parser_skip_semicolons ts) ≡ parser_skip_semicolons ts
        → parser_skip_semicolons (parser_skip_semicolons (t ∷ ts)) ≡ parser_skip_semicolons (t ∷ ts)
    go (inl e) ih = rw e ih
    go (inr e) ih = rw e (rw e)

next_one : (ts : Tokens) → parse_next_statement ts ≡ parse_one (parser_skip_semicolons ts)
unfolding parse_next_statement parser_skip_semicolons parse_one
next_one [] = refl
next_one (t ∷ ts) = refl

-- Either way the statement is read behind the semicolons.
next_first :
    (ts : Tokens)
    → parse_next_statement (parser_skip_semicolons ts) ≡ parse_one (parser_skip_semicolons ts)
next_first ts = next_one (parser_skip_semicolons ts) ∙ ap parse_one (skip_skip ts)

abbrev statement_end : Result (Statement × Tokens) → Result Statement
statement_end r = r >>= λ (stmt, rest). at_end stmt (parser_skip_semicolons rest)

abbrev Agree : Prepared → Result Statement → Type 0
Agree p r = (stmt : Statement) → (p ≡ prepared stmt) ↔ (r ≡ ok stmt)

reject-Agree : (reply : Reply) (e : Status) → Agree (rejected reply) (err e)
reject-Agree reply e stmt = ((λ p. absurd (cc p)), λ p. absurd (cc p))

end_Agree :
    (stmt : Statement) (rest : Tokens)
    → Agree
        (if at_eof rest
          then prepared stmt
          else reject invalid_args (codes "MULTI_STATEMENT_NOT_ALLOWED"))
        (at_end stmt rest)
unfolding at_end
end_Agree stmt [] = reject-Agree _ parse_error
end_Agree stmt (t ∷ ts) = go (Bool-cases (t.token_type is token_eof))
  where
    go :
        ((t.token_type is token_eof) ≡ true) ⊎ ((t.token_type is token_eof) ≡ false)
        → Agree
            (if t.token_type is token_eof
              then prepared stmt
              else reject invalid_args (codes "MULTI_STATEMENT_NOT_ALLOWED"))
            (at_end stmt (t ∷ ts))
    go (inl e) = λ s. rw e ((λ p. cc p), λ p. cc p)
    go (inr e) = λ s. rw e (reject-Agree _ parse_error s)

check_single-Agree : (r : Result (Statement × Tokens)) → Agree (check_single r) (statement_end r)
unfolding check_single
check_single-Agree (err e) = reject-Agree _ e
check_single-Agree (ok (stmt, rest)) = end_Agree stmt (parser_skip_semicolons rest)

-- The first token behind the semicolons starts no statement.
refused_Agree :
    (ts : Tokens) (reply : Reply)
    → prepare_tokens ts ≡ rejected reply
    → parse_one (parser_skip_semicolons ts) ≡ err parse_error
    → Agree (prepare_tokens ts) (parse_statement ts)
unfolding parse_statement
refused_Agree ts reply p q stmt =
    let none : parse_statement ts ≡ err parse_error = ap statement_end (next_one ts ∙ q) in
    rw (p, none) (reject-Agree reply parse_error stmt)

-- The checks of a request let a statement through exactly when `parse_statement` accepts the
-- tokens, and it is the same statement.
pub prepare_tokens-parse_statement :
    (ts : Tokens) (stmt : Statement)
    → (prepare_tokens ts ≡ prepared stmt) ↔ (parse_statement ts ≡ ok stmt)
unfolding prepare_tokens parse_statement parse_one
prepare_tokens-parse_statement ts =
    let first = parser_skip_semicolons ts in
    go (Bool-cases (parser_peek first is token_eof))
      (Bool-cases (parser_peek first is token_select))
      (Bool-cases (parser_peek first is token_insert))
  where
    started :
        prepare_tokens ts ≡ check_single (parse_next_statement (parser_skip_semicolons ts))
        → Agree (prepare_tokens ts) (parse_statement ts)
    started p stmt =
        let same : parse_statement ts
            ≡ statement_end (parse_next_statement (parser_skip_semicolons ts)) =
          ap statement_end (next_one ts ∙ sym (next_first ts)) in
        rw (p, same) (check_single-Agree (parse_next_statement (parser_skip_semicolons ts)) stmt)

    go :
        ((parser_peek (parser_skip_semicolons ts) is token_eof) ≡ true)
          ⊎ ((parser_peek (parser_skip_semicolons ts) is token_eof) ≡ false)
        → ((parser_peek (parser_skip_semicolons ts) is token_select) ≡ true)
          ⊎ ((parser_peek (parser_skip_semicolons ts) is token_select) ≡ false)
        → ((parser_peek (parser_skip_semicolons ts) is token_insert) ≡ true)
          ⊎ ((parser_peek (parser_skip_semicolons ts) is token_insert) ≡ false)
        → Agree (prepare_tokens ts) (parse_statement ts)
    go (inl e) _ _ = refused_Agree ts (failed invalid_args 400 (codes "EMPTY_QUERY")) (rw e) (rw e)
    go (inr e) (inr a) (inr b) =
        refused_Agree ts (failed invalid_args 400 (codes "UNSUPPORTED_QUERY")) (rw (e, a, b))
          (rw (e, b, a))
    go (inr e) (inl a) _ = started (rw (e, a))
    go (inr e) (inr a) (inl b) = started (rw (e, a, b))

-- A statement that is let through is the one of the text; a refusal has HTTP status 400.
abbrev pub Outcome : Bytes → Prepared → Type 0
Outcome sql (prepared stmt) =
    (ts : Tokens) × (tokenize_sql (trim_whitespace sql) ≡ ok ts) × IsParsed stmt × IsScript ts stmt
Outcome sql (rejected reply) = (e : Status) × (code : Bytes) × (reply ≡ failed e 400 code)

abbrev IsRefusal : Prepared → Type 0
IsRefusal (prepared stmt) = Unit
IsRefusal (rejected reply) = (e : Status) × (code : Bytes) × (reply ≡ failed e 400 code)

if-IsRefusal :
    (b : Bool) (p q : Prepared) → IsRefusal p → IsRefusal q → IsRefusal (if b then p else q)
if-IsRefusal true p q hp hq = hp
if-IsRefusal false p q hp hq = hq

check_single-IsRefusal : (r : Result (Statement × Tokens)) → IsRefusal (check_single r)
unfolding check_single
check_single-IsRefusal (err e) = (e, _, refl)
check_single-IsRefusal (ok (stmt, rest)) =
    if-IsRefusal (at_eof (parser_skip_semicolons rest)) _ _ tt (_, _, refl)

prepare_tokens-IsRefusal : (ts : Tokens) → IsRefusal (prepare_tokens ts)
unfolding prepare_tokens
prepare_tokens-IsRefusal ts =
    let first = parser_skip_semicolons ts in
    if-IsRefusal (parser_peek first is token_eof) _ _ (_, _, refl)
      (if-IsRefusal
        (not (parser_peek first is token_select) && not (parser_peek first is token_insert)) _ _
        (_, _, refl) (check_single-IsRefusal (parse_next_statement first)))

lexed_Outcome :
    (sql : Bytes) (ts : Tokens) (p : Prepared)
    → tokenize_sql (trim_whitespace sql) ≡ ok ts
    → prepare_tokens ts ≡ p
    → IsRefusal p
    → Outcome sql p
lexed_Outcome sql ts (rejected reply) e q r = r
lexed_Outcome sql ts (prepared stmt) e q r =
    let parsed = (prepare_tokens-parse_statement ts stmt).0 q in
    let (h, script) =
      parse_statement-IsScript ts stmt (tokenize_sql-EndsEof (trim_whitespace sql) ts e) parsed in
    (ts, e, h, script)

-- Of every SQL text: if a statement is let through to the lock, the text without the spaces around
-- it is tokenized, to the tokens of just that statement between semicolons, up to the spelling of
-- keywords and symbols. Else the reply has HTTP status 400.
pub prepare_sql-Outcome : (sql : Bytes) → Outcome sql (prepare_sql sql)
unfolding prepare_sql
prepare_sql-Outcome sql = go (trim_whitespace sql) refl
  where
    lexed :
        (r : Result Tokens) → tokenize_sql (trim_whitespace sql) ≡ r → Outcome sql (prepare_lexed r)
    lexed (err e) q = (e, _, refl)
    lexed (ok ts) q = lexed_Outcome sql ts (prepare_tokens ts) q refl (prepare_tokens-IsRefusal ts)

    go : (text : Bytes) → trim_whitespace sql ≡ text → Outcome sql (prepare_trimmed text)
    go [] q = (_, _, refl)
    go (c ∷ cs) q = lexed (tokenize_sql (c ∷ cs)) (ap tokenize_sql q)
