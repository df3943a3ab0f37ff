-- ===== src/Script/Runs.antt =====
-- src/main.c: a script is executed statement by statement.
use threaded_db_api_server.Prelude.{
  ℕ, zero, suc, ◌-◌, ◌<◌, ◌≡◌, ◌≢◌, refl, ap, ◌∙◌, false, some, List, [], ◌∷◌, ◌++◌, length, arith,
}
use threaded_db_api_server.Prelude.Bytes.{Bytes, c_str}
use threaded_db_api_server.Errors.{Result, ok, err}
use threaded_db_api_server.Disk.{Disk}
use threaded_db_api_server.Lexer.{
  token_eof, token_where, token_semicolon, ◌is◌, tokenize_sql, tokenize_loop, next_token,
}
use threaded_db_api_server.Runtime.{ExecutionContext, init_execution_context}
use threaded_db_api_server.Executor.{Statement, insert_stmt, select_stmt, ExecResult}
use threaded_db_api_server.Executor.Insert.{execute_statement}
use threaded_db_api_server.Parser.{
  Tokens, parser_peek, parser_skip_semicolons, parse_next_statement,
}
use threaded_db_api_server.Parser.Print.{fixed, semicolons, statement_tokens, IsParsed}
use threaded_db_api_server.Parser.RoundTrip.{skip_lem, parse_next_statement-statement_tokens}
use threaded_db_api_server.DbApi.{trim_whitespace}
use threaded_db_api_server.Cli.{parse_cli_args}
use threaded_db_api_server.Script.{
  Run, read_text_file, finished, after_execute, after_parse, run_loop, run_tokens, run_text,
  run_file, read_script, run_options, run_main,
}
use threaded_db_api_server.Script.Ends.{statement_tokens-length, semicolons-length}

-- What one statement leads to.
abbrev pub after_all :
    (Disk → ExecutionContext → List ExecResult → Run)
    → List ExecResult
    → Disk × ExecutionContext × Result ExecResult
    → Run
after_all more printed (d, ctx, ok result) = more d ctx (printed ++ result ∷ [])
after_all more printed (d, ctx, err e) = record { disk = d; printed = printed; status = err e }

-- The statements executed one after the other on one cache, until one fails.
unfoldable pub run_all : Disk → ExecutionContext → List ExecResult → List Statement → Run
run_all d ctx printed [] = record { disk = d; printed = printed; status = finished printed }
run_all d ctx printed (stmt ∷ more) =
    after_all (λ d ctx rs. run_all d ctx rs more) printed (execute_statement d ctx stmt)

-- The tokens of statements with any number of semicolons behind each.
abbrev pub script : List (Statement × ℕ) → Tokens
script [] = fixed token_eof ∷ []
script ((stmt, n) ∷ more) = statement_tokens stmt (semicolons n (script more))

abbrev pub statements : List (Statement × ℕ) → List Statement
statements [] = []
statements ((stmt, n) ∷ more) = stmt ∷ statements more

abbrev pub AllParsed : List (Statement × ℕ) → Type 0
AllParsed [] = Unit
AllParsed ((stmt, n) ∷ more) = IsParsed stmt × AllParsed more

-- A script begins with no semicolon and no WHERE.
script_begins :
    (ss : List (Statement × ℕ))
    → ((parser_peek (script ss) is token_semicolon) ≡ false)
      × ((parser_peek (script ss) is token_where) ≡ false)
script_begins [] = (refl, refl)
script_begins ((insert_stmt stmt, n) ∷ more) = (refl, refl)
script_begins ((select_stmt stmt, n) ∷ more) = (refl, refl)

-- The tokens behind a statement and the semicolon that it takes.
read_lem :
    (stmt : Statement) (n : ℕ) (more : List (Statement × ℕ))
    → IsParsed stmt
    → parse_next_statement (statement_tokens stmt (semicolons n (script more)))
      ≡ ok (stmt, semicolons (n - 1) (script more))
read_lem stmt zero more h =
    parse_next_statement-statement_tokens 0 stmt (script more) h (script_begins more).1
    ∙ rw (script_begins more).0 refl
read_lem stmt (suc n) more h =
    parse_next_statement-statement_tokens 0 stmt (semicolons (suc n) (script more)) h refl
    ∙ ap (λ k. ok (stmt, semicolons k (script more))) {x = n} {y = suc n - 1} (omega arith)

execute_lem :
    (fuel : ℕ) (printed : List ExecResult) (rest : Tokens) (more : List (Statement × ℕ))
    → parser_skip_semicolons rest ≡ script more
    → ((d : Disk) (ctx : ExecutionContext) (rs : List ExecResult)
        → run_loop fuel d ctx rs (script more) ≡ some (run_all d ctx rs (statements more)))
    → (done : Disk × ExecutionContext × Result ExecResult)
    → after_execute (run_loop fuel) printed rest done
      ≡ some (after_all (λ d ctx rs. run_all d ctx rs (statements more)) printed done)
unfolding after_execute
execute_lem fuel printed rest more e ih (d, ctx, ok result) =
    ap (run_loop fuel d ctx (printed ++ result ∷ [])) e ∙ ih d ctx (printed ++ result ∷ [])
execute_lem fuel printed rest more e ih (d, ctx, err status) = refl

no_eof :
    (stmt : Statement) (ts : Tokens) → (parser_peek (statement_tokens stmt ts) is token_eof) ≡ false
no_eof (insert_stmt stmt) ts = refl
no_eof (select_stmt stmt) ts = refl

loop_lem :
    (fuel : ℕ) (ss : List (Statement × ℕ)) (d : Disk) (ctx : ExecutionContext)
    (printed : List ExecResult)
    → AllParsed ss
    → length (script ss) < fuel
    → run_loop fuel d ctx printed (script ss) ≡ some (run_all d ctx printed (statements ss))
unfolding run_loop run_all after_parse
loop_lem zero ss d ctx printed h l = absurd (omega arith)
loop_lem (suc fuel) [] d ctx printed h l = refl
loop_lem (suc fuel) ((stmt, n) ∷ more) d ctx printed h l =
    rw (no_eof stmt (semicolons n (script more)), read_lem stmt n more h.0)
      (execute_lem fuel printed (semicolons (n - 1) (script more)) more
        (skip_lem (n - 1) (script more) (script_begins more).0)
        (λ d ctx rs. loop_lem fuel more d ctx rs h.1 (
          omega (
            arith,
            l,
            statement_tokens-length stmt (semicolons n (script more)),
            semicolons-length n (script more),
          )))
        (execute_statement d ctx stmt))

tokens_lem :
    (d : Disk) (dir : Bytes) (m : ℕ) (ss : List (Statement × ℕ))
    → AllParsed ss
    → run_tokens d (some dir) (ok (semicolons m (script ss)))
      ≡ some (run_all d (init_execution_context dir) [] (statements ss))
unfolding run_tokens
tokens_lem d dir m ss h = rw (skip_lem m (script ss) (script_begins ss).0) (
    loop_lem (suc (length (semicolons m (script ss)))) ss d (init_execution_context dir) [] h
      (omega (arith, semicolons-length m (script ss))))

-- The empty text has the one token TOKEN_EOF.
no_tokens :
    (m : ℕ) (s : Statement × ℕ) (more : List (Statement × ℕ))
    → tokenize_sql [] ≢ ok (semicolons m (script (s ∷ more)))
unfolding tokenize_sql tokenize_loop next_token
no_tokens zero (insert_stmt stmt, n) more e = absurd (cc e)
no_tokens zero (select_stmt stmt, n) more e = absurd (cc e)
no_tokens (suc m) s more e = absurd (cc e)

text_lem :
    (d : Disk) (dir text : Bytes) (m : ℕ) (s : Statement × ℕ) (more : List (Statement × ℕ))
    → AllParsed (s ∷ more)
    → tokenize_sql text ≡ ok (semicolons m (script (s ∷ more)))
    → run_text d (some dir) text
      ≡ some (run_all d (init_execution_context dir) [] (statements (s ∷ more)))
unfolding run_text
text_lem d dir [] m s more h e = absurd (no_tokens m s more e)
text_lem d dir (c ∷ cs) m s more h e =
    ap (run_tokens d (some dir)) e ∙ tokens_lem d dir m (s ∷ more) h

-- If the arguments name a database and a file (`parse_cli_args`), the file can be read and is not
-- empty, and its text without the spaces around it is tokenized to those of statements as a parse
-- returns them (`AllParsed`), one at least, with any number of semicolons before, between and
-- behind them, then the program ends, and files, results printed and status are those of executing
-- the statements one after the other on one cache, until one fails (`run_all`).
pub run_main-run_all :
    (d : Disk) (args : List Bytes) (dir path text : Bytes) (m : ℕ) (s : Statement × ℕ)
    (more : List (Statement × ℕ))
    → parse_cli_args args
      ≡ ok (record { db_dir = some dir; sql_file = some path; help_requested = false })
    → read_text_file d path ≡ some text
    → AllParsed (s ∷ more)
    → tokenize_sql (trim_whitespace (c_str text)) ≡ ok (semicolons m (script (s ∷ more)))
    → run_main d args ≡ some (run_all d (init_execution_context dir) [] (statements (s ∷ more)))
unfolding run_main run_options run_file read_script
run_main-run_all d args dir path text m s more asked read h e =
    rw (asked, read) (text_lem d dir (trim_whitespace (c_str text)) m s more h e)
