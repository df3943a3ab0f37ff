-- ===== src/Script.antt =====
-- src/main.c: the program that runs the statements of an SQL file. `read_text_file` of src/utils.c.
--
-- A run ends with the files, the results that were printed in order, and the status that is
-- returned. Usage and error messages are left out.
pub mod Ends
pub mod Runs
use threaded_db_api_server.Prelude.{
  ℕ, zero, suc, Option, none, some, List, [], ◌∷◌, ◌++◌, length, if◌then◌else◌,
}
use threaded_db_api_server.Prelude.Bytes.{Bytes, c_str}
use threaded_db_api_server.Errors.{Status, file_error, parse_error, exec_error, Result, ok, err}
use threaded_db_api_server.Disk.{Disk}
use threaded_db_api_server.Lexer.{token_eof, ◌is◌, tokenize_sql}
use threaded_db_api_server.Runtime.{ExecutionContext, init_execution_context}
use threaded_db_api_server.Executor.{Statement, ExecResult}
use threaded_db_api_server.Executor.Insert.{execute_statement}
use threaded_db_api_server.Parser.{
  Tokens, parser_peek, parser_skip_semicolons, parse_next_statement,
}
use threaded_db_api_server.DbApi.{trim_whitespace}
use threaded_db_api_server.Cli.{CliOptions, parse_cli_args}

pub record Run : Type 0 where
  pub disk : Disk
  pub printed : List ExecResult
  pub status : Result (Unit {0})

-- An empty file is refused like one that cannot be read.
unfoldable pub read_text_file : Disk → Bytes → Option Bytes
read_text_file d path = if d.denied path then none else content (d.file path)
  where
    content : Option Bytes → Option Bytes
    content none = none
    content (some []) = none
    content (some (c ∷ cs)) = some (c ∷ cs)

-- `executed_statement_count` is the number of results printed.
unfoldable pub finished : List ExecResult → Result (Unit {0})
finished [] = err parse_error
finished (r ∷ rs) = ok tt

-- What the loop goes on with: the files, the cache, the results printed and the tokens left.
abbrev pub Loop : Type 0
Loop = Disk → ExecutionContext → List ExecResult → Tokens → Option Run

pub after_execute :
    Loop → List ExecResult → Tokens → Disk × ExecutionContext × Result ExecResult → Option Run
after_execute more printed rest (d, ctx, err e) =
    some (record { disk = d; printed = printed; status = err e })
after_execute more printed rest (d, ctx, ok result) =
    more d ctx (printed ++ result ∷ []) (parser_skip_semicolons rest)

pub after_parse :
    Loop → Disk → ExecutionContext → List ExecResult → Result (Statement × Tokens) → Option Run
unfolding after_execute
after_parse more d ctx printed (err e) =
    some (record { disk = d; printed = printed; status = err e })
after_parse more d ctx printed (ok (stmt, rest)) =
    after_execute more printed rest (execute_statement d ctx stmt)

unfoldable pub run_loop : ℕ → Loop
unfolding after_parse finished
run_loop zero d ctx printed ts = none
run_loop (suc fuel) d ctx printed ts =
    if parser_peek ts is token_eof
    then some (record { disk = d; printed = printed; status = finished printed })
    else after_parse (run_loop fuel) d ctx printed (parse_next_statement ts)

-- The tokens of the text, or what the lexer says.
pub run_tokens : Disk → Option Bytes → Result Tokens → Option Run
run_tokens d dir (err e) = some (record { disk = d; printed = []; status = err e })
run_tokens d none (ok ts) = some (record { disk = d; printed = []; status = err exec_error })
run_tokens d (some dir) (ok ts) =
    run_loop (suc (length ts)) d (init_execution_context dir) [] (parser_skip_semicolons ts)

pub run_text : Disk → Option Bytes → Bytes → Option Run
unfolding run_tokens
run_text d dir [] = some (record { disk = d; printed = []; status = err file_error })
run_text d dir (c ∷ cs) = run_tokens d dir (tokenize_sql (c ∷ cs))

pub run_file : Disk → Option Bytes → Option Bytes → Option Run
unfolding run_text
run_file d dir none = some (record { disk = d; printed = []; status = err file_error })
run_file d dir (some text) = run_text d dir (trim_whitespace (c_str text))

pub read_script : Disk → Option Bytes → Option Bytes
unfolding read_text_file
read_script d none = none
read_script d (some path) = read_text_file d path

pub run_options : Disk → Result CliOptions → Option Run
unfolding run_file read_script
run_options d (err e) = some (record { disk = d; printed = []; status = err e })
run_options d (ok options) =
    if options.help_requested
    then some (record { disk = d; printed = []; status = ok tt })
    else run_file d options.db_dir (read_script d options.sql_file)

-- `main`
unfoldable pub run_main : Disk → List Bytes → Option Run
unfolding run_options
run_main d args = run_options d (parse_cli_args args)
