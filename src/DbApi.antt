-- ===== src/DbApi.antt =====
-- src/db_api.c and include/db_api.h: a request from its SQL text to its reply, with the lock.
--
-- The messages of a reply are left out, memory does not run out and no pointer is NULL. A request
-- goes through the phases below: what it does between two waits for the lock is one turn. The lock
-- is a POSIX rwlock: it is taken for writing when nobody holds it, and for reading when nobody
-- writes. Taking it may fail.
pub mod Turns
pub mod Counts
pub mod Fair
pub mod Exclusion
pub mod Prepare
pub mod Body
pub mod Serves
use threaded_db_api_server.Prelude.{
  ℕ, zero, suc, ◌+◌, ◌-◌, ◌<◌, ◌≡◌, Bool, true, false, not, ◌&&◌, ◌||◌, Option, none, some, List,
  [], ◌∷◌, ◌++◌, if◌then◌else◌, ◌==◌, get_elem?, set,
}
use threaded_db_api_server.Prelude.Bytes.{Bytes, codes, is_space}
use threaded_db_api_server.Errors.{
  Status, invalid_args, file_error, lex_error, parse_error, schema_error, storage_error, exec_error,
  index_error, Result, ok, err,
}
use threaded_db_api_server.Disk.{Disk}
use threaded_db_api_server.Lexer.{Token, token_eof, token_select, token_insert, ◌is◌, tokenize_sql}
use threaded_db_api_server.Runtime.{
  ExecutionContext, init_execution_context, free_execution_context, runtime_preload_table,
}
use threaded_db_api_server.Executor.{
  InsertStatement, SelectStatement, Statement, insert_stmt, select_stmt, ExecResult,
}
use threaded_db_api_server.Executor.Insert.{execute_statement}
use threaded_db_api_server.Parser.{
  Tokens, parser_peek, parser_skip_semicolons, parse_next_statement,
}

unfoldable pub skip_spaces : Bytes → Bytes
skip_spaces [] = []
skip_spaces (c ∷ cs) = let rest = skip_spaces cs in if is_space c then rest else c ∷ cs

-- The spaces at the end: a space with nothing but spaces behind it.
put_unless_last : ℕ → Bytes → Bytes
put_unless_last c [] = if is_space c then [] else c ∷ []
put_unless_last c (d ∷ cs) = c ∷ d ∷ cs

unfoldable pub drop_last_spaces : Bytes → Bytes
unfolding put_unless_last
drop_last_spaces [] = []
drop_last_spaces (c ∷ cs) = put_unless_last c (drop_last_spaces cs)

unfoldable pub trim_whitespace : Bytes → Bytes
trim_whitespace text = drop_last_spaces (skip_spaces text)

-- `*out_http_status` and `*out_error_code`
unfoldable pub map_engine_status : Status → ℕ × Bytes
map_engine_status lex_error = (400, codes "SQL_PARSE_ERROR")
map_engine_status parse_error = (400, codes "SQL_PARSE_ERROR")
map_engine_status schema_error = (400, codes "SCHEMA_ERROR")
map_engine_status exec_error = (400, codes "EXECUTION_ERROR")
map_engine_status storage_error = (500, codes "STORAGE_ERROR")
map_engine_status index_error = (500, codes "INDEX_ERROR")
map_engine_status _ = (500, codes "INTERNAL_ERROR")

-- STATUS_OK with HTTP status 200 and the result, or the returned status, the HTTP status and the
-- error code of the body.
pub data Reply : Type 0 where
  succeeded : ExecResult → Reply
  failed : Status → ℕ → Bytes → Reply

unfoldable pub engine_reply : Result ExecResult → Reply
unfolding map_engine_status
engine_reply (ok result) = succeeded result
engine_reply (err e) = let mapped = map_engine_status e in failed e mapped.0 mapped.1

abbrev pub lock_error : Reply
lock_error = failed exec_error 500 (codes "INTERNAL_ERROR")

-- What comes before the lock: a reply, or the statement to execute.
pub data Prepared : Type 0 where
  rejected : Reply → Prepared
  prepared : Statement → Prepared

abbrev pub reject : Status → Bytes → Prepared
reject e code = rejected (failed e 400 code)

-- `cursor < tokens.count && tokens.items[cursor].type == TOKEN_EOF`
abbrev pub at_eof : Tokens → Bool
at_eof [] = false
at_eof (t ∷ ts) = t.token_type is token_eof

pub check_single : Result (Statement × Tokens) → Prepared
check_single (err e) = reject e (codes "SQL_PARSE_ERROR")
check_single (ok (stmt, rest)) =
    if at_eof (parser_skip_semicolons rest)
    then prepared stmt
    else reject invalid_args (codes "MULTI_STATEMENT_NOT_ALLOWED")

-- The loop of `skip_leading_semicolons` and of `skip_trailing_semicolons` is that of the parser.
unfoldable pub prepare_tokens : Tokens → Prepared
unfolding check_single
prepare_tokens tokens =
    let first = parser_skip_semicolons tokens in
    if parser_peek first is token_eof
    then reject invalid_args (codes "EMPTY_QUERY")
    else if not (parser_peek first is token_select) && not (parser_peek first is token_insert)
    then reject invalid_args (codes "UNSUPPORTED_QUERY")
    else check_single (parse_next_statement first)

prepare_lexed : Result Tokens → Prepared
prepare_lexed (err e) = reject e (codes "SQL_PARSE_ERROR")
prepare_lexed (ok tokens) = prepare_tokens tokens

prepare_trimmed : Bytes → Prepared
unfolding prepare_lexed
prepare_trimmed [] = reject invalid_args (codes "EMPTY_QUERY")
prepare_trimmed (c ∷ cs) = prepare_lexed (tokenize_sql (c ∷ cs))

-- `db_api_execute_sql` up to the lock
unfoldable pub prepare_sql : Bytes → Prepared
unfolding prepare_trimmed
prepare_sql sql = prepare_trimmed (trim_whitespace sql)

pub record RwLock : Type 0 where
  pub readers : ℕ
  pub writing : Bool

-- `DbApi`, with the files that its context stands for
pub record DbApi : Type 0 where
  pub disk : Disk
  pub ctx : ExecutionContext
  pub db_rwlock : RwLock

unfoldable pub db_api_init : Disk → Bytes → DbApi
db_api_init disk db_dir = record {
  disk = disk;
  ctx = init_execution_context db_dir;
  db_rwlock = record { readers = 0; writing = false };
}

-- The context and the lock are gone; the files stay.
unfoldable pub db_api_destroy : DbApi → DbApi
unfolding free_execution_context
db_api_destroy api = record {
  disk = api.disk;
  ctx = free_execution_context api.ctx;
  db_rwlock = record { readers = 0; writing = false };
}
