-- ===== src/Script/Ends.antt =====
-- src/main.c: the loop over the statements ends.
use threaded_db_api_server.Prelude.{
  ℕ, zero, suc, ◌+◌, ◌≤◌, ◌<◌, ◌≡◌, subst, ◌≢◌, refl, ap, Bool, true, false, Option, none, some,
  List, [], ◌∷◌, map, length, length-map, length-append, arith, if◌then◌else◌,
}
use threaded_db_api_server.Prelude.Bytes.{Bytes, c_str}
use threaded_db_api_server.Errors.Outcome.{Ensures, Returns, refuses, delivers, Returns-one}
use threaded_db_api_server.Executor.Insert.Returns.{execute_statement-Returns}
use threaded_db_api_server.Cli.Returns.{parse_cli_args-Returns}
use threaded_db_api_server.Lexer.Ends.{tokenize_sql-err}
use threaded_db_api_server.Errors.{Status, lex_error, out_of_rounds, Result, ok, err}
use threaded_db_api_server.Disk.{Disk}
use threaded_db_api_server.Lexer.{token_eof, ◌is◌, tokenize_sql}
use threaded_db_api_server.Runtime.{ExecutionContext}
use threaded_db_api_server.Executor.{Statement, insert_stmt, select_stmt, ExecResult}
use threaded_db_api_server.Executor.Insert.{execute_statement}
use threaded_db_api_server.Parser.{
  Tokens, parser_peek, parser_skip_semicolons, parse_next_statement,
}
use threaded_db_api_server.Parser.Print.{semicolons, statement_tokens}
use threaded_db_api_server.Parser.Passes.{normal}
use threaded_db_api_server.Parser.Text.{statement_tokens-append}
use threaded_db_api_server.Parser.Sound.{parse_next_statement-IsNext, parse_next_statement-Returns}
use threaded_db_api_server.DbApi.{trim_whitespace}
use threaded_db_api_server.Cli.{CliOptions, parse_cli_args}
use threaded_db_api_server.Script.{
  Run, finished, Loop, after_execute, after_parse, run_loop, run_tokens, run_text, run_file,
  read_script, run_options, run_main,
}

-- A run that has an end, with a status of the source.
data Ended : Option Run → Type 0 where
  ended : (r : Run) → Returns r.status → Ended (some r)

pub skip-length : (ts : Tokens) → length (parser_skip_semicolons ts) ≤ length ts
unfolding parser_skip_semicolons
skip-length [] = omega arith
skip-length (t ∷ ts) = ground (arith, skip-length ts)

pub semicolons-length : (n : ℕ) (ts : Tokens) → length (semicolons n ts) ≡ n + length ts
semicolons-length zero ts = omega arith
semicolons-length (suc n) ts = omega (arith, semicolons-length n ts)

pub statement_tokens-length :
    (stmt : Statement) (ts : Tokens) → suc (length ts) ≤ length (statement_tokens stmt ts)
statement_tokens-length stmt ts = omega (
  arith,
  ap length (statement_tokens-append stmt [] ts),
  length-append (statement_tokens stmt []) ts,
  some_token stmt,
)
  where
    some_token : (s : Statement) → 1 ≤ length (statement_tokens s [])
    some_token (insert_stmt s) = omega arith
    some_token (select_stmt s) = omega arith

-- A statement takes a token at least.
next-length :
    (ts rest : Tokens) (stmt : Statement)
    → parse_next_statement ts ≡ ok (stmt, rest)
    → suc (length rest) ≤ length ts
next-length ts rest stmt e =
    let (_, m, n, p) = parse_next_statement-IsNext ts rest stmt e in
    let all = semicolons m (statement_tokens stmt (semicolons n (map normal rest))) in
    omega (
      arith,
      length-map normal ts,
      length-map normal rest,
      ap length p.passed,
      semicolons-length m (statement_tokens stmt (semicolons n (map normal rest))),
      statement_tokens-length stmt (semicolons n (map normal rest)),
      semicolons-length n (map normal rest),
    )

Ended-if : (b : Bool) {o p : Option Run} → Ended o → Ended p → Ended (if b then o else p)
Ended-if true h k = h
Ended-if false h k = k

-- The status of a call that fails is that of its caller.
fails {ℓ} :
    {A : Type ℓ} {e : Status}
    → Ensures (λ (value : A). Unit {0}) (err e)
    → Ensures (λ (value : Unit {0}). Unit {0}) (err e)
fails (refuses h) = refuses h

Returns-end : Ensures (λ (value : Unit {0}). Unit {0}) (err out_of_rounds) → ⊥
Returns-end (refuses h) = h

finished-Returns : (printed : List ExecResult) → Returns (finished printed)
unfolding finished
finished-Returns [] = refuses tt
finished-Returns (r ∷ rs) = delivers tt

execute-Ended :
    (more : Loop) (printed : List ExecResult) (rest : Tokens)
    → ((d : Disk) (ctx : ExecutionContext) (rs : List ExecResult)
        → Ended (more d ctx rs (parser_skip_semicolons rest)))
    → (done : Disk × ExecutionContext × Result ExecResult) → Returns done.2
    → Ended (after_execute more printed rest done)
unfolding after_execute
execute-Ended more printed rest h (d, ctx, ok r) k = h d ctx _
execute-Ended more printed rest h (d, ctx, err e) k = ended _ (fails k)

parse-Ended :
    (more : Loop) (d : Disk) (ctx : ExecutionContext) (printed : List ExecResult) (ts : Tokens)
    → ((us : Tokens)
        → length us < length ts
        → (d : Disk) (ctx : ExecutionContext) (rs : List ExecResult) → Ended (more d ctx rs us))
    → (read : Result (Statement × Tokens)) → Returns read
    → parse_next_statement ts ≡ read
    → Ended (after_parse more d ctx printed read)
unfolding after_parse
parse-Ended more d ctx printed ts h (err e) k p = ended _ (fails k)
parse-Ended more d ctx printed ts h (ok (stmt, rest)) k p =
    execute-Ended more printed rest
      (h (parser_skip_semicolons rest)
        (omega (arith, skip-length rest, next-length ts rest stmt p)))
      (execute_statement d ctx stmt) (execute_statement-Returns d ctx stmt)

loop-Ended :
    (fuel : ℕ) (d : Disk) (ctx : ExecutionContext) (printed : List ExecResult) (ts : Tokens)
    → length ts < fuel
    → Ended (run_loop fuel d ctx printed ts)
unfolding run_loop
loop-Ended zero d ctx printed ts h = absurd (omega arith)
loop-Ended (suc fuel) d ctx printed ts h =
    Ended-if (parser_peek ts is token_eof) (ended _ (finished-Returns printed)) (
      parse-Ended (run_loop fuel) d ctx printed ts
        (λ us l d ctx rs. loop-Ended fuel d ctx rs us (omega arith)) (parse_next_statement ts)
        (parse_next_statement-Returns ts) refl)

tokens-Ended :
    (d : Disk) (dir : Option Bytes) (r : Result Tokens) → Returns r → Ended (run_tokens d dir r)
unfolding run_tokens
tokens-Ended d dir (err e) k = ended _ (fails k)
tokens-Ended d none (ok ts) k = ended _ (refuses tt)
tokens-Ended d (some dir) (ok ts) k =
    loop-Ended (suc (length ts)) d _ [] (parser_skip_semicolons ts) (omega (arith, skip-length ts))

text-Ended : (d : Disk) (dir : Option Bytes) (text : Bytes) → Ended (run_text d dir text)
unfolding run_text
text-Ended d dir [] = ended _ (refuses tt)
text-Ended d dir (c ∷ cs) =
    tokens-Ended d dir (tokenize_sql (c ∷ cs))
      (Returns-one lex_error _ tt (tokenize_sql-err (c ∷ cs)))

file-Ended : (d : Disk) (dir o : Option Bytes) → Ended (run_file d dir o)
unfolding run_file
file-Ended d dir none = ended _ (refuses tt)
file-Ended d dir (some text) = text-Ended d dir (trim_whitespace (c_str text))

options-Ended : (d : Disk) (r : Result CliOptions) → Returns r → Ended (run_options d r)
unfolding run_options
options-Ended d (err e) k = ended _ (fails k)
options-Ended d (ok options) k =
    Ended-if options.help_requested (ended _ (delivers tt))
      (file-Ended d options.db_dir (read_script d options.sql_file))

-- With whatever arguments and files, the program ends: neither the loop over the statements nor a
-- loop of the lexer or over a schema file or a data file runs out of its rounds, which would be
-- the status `out_of_rounds`.
pub run_main_ends :
    (d : Disk) (args : List Bytes)
    → (r : Run) × (run_main d args ≡ some r) × (r.status ≢ err out_of_rounds)
unfolding run_main
run_main_ends d args = given (options-Ended d (parse_cli_args args) (parse_cli_args-Returns args))
  where
    given : {o : Option Run} → Ended o → (r : Run) × (o ≡ some r) × (r.status ≢ err out_of_rounds)
    given (ended r h) = (r, refl, λ e. Returns-end (subst (λ s. Returns s) e h))
