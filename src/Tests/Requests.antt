-- ===== src/Tests/Requests.antt =====
-- Requests to the server, of src/server.c and src/db_api.c.
use threaded_db_api_server.Prelude.{
  ℕ, get_elem?, ◌++◌, arith, ◌≡◌, ◌⊎◌, ◌↔◌, refl, true, false, some, none, [], ◌∷◌, All,
  if◌then◌else◌,
}
use threaded_db_api_server.Prelude.Bytes.{Bytes, codes, str_eq, c_str}
use threaded_db_api_server.Errors.{ok}
use threaded_db_api_server.Ids.{print_u64}
use threaded_db_api_server.Json.{field_ok, json_append_escaped_string, escape_bytes}
use threaded_db_api_server.Json.Field.{json_extract_string_field}
use threaded_db_api_server.Json.Buffer.{JsonBuffer, json_append, HasRoom}
use threaded_db_api_server.Json.Buffer.Room.{json_append-HasRoom}
use threaded_db_api_server.DbApi.Body.{make_success_json, make_error_json}
use threaded_db_api_server.DbApi.Body.Reads.{json_extract-make_error_json}
use threaded_db_api_server.Json.RoundTrip.{all_readable}
use threaded_db_api_server.Disk.{Disk, build_table_path}
use threaded_db_api_server.Runtime.{
  TableRuntime, init_execution_context, runtime_preload_table, get_or_load_table_runtime,
}
use threaded_db_api_server.Storage.Lines.{read_line, strip_cr}
use threaded_db_api_server.Storage.Table.{ensure_table_data_file}
use threaded_db_api_server.Schema.{load_table_schema, schema_find_column_index, trim_in_place}
use threaded_db_api_server.Executor.{SelectStatement, ExecResult, result_select}
use threaded_db_api_server.Executor.Select.{select_from}
use threaded_db_api_server.Lexer.{
  tokenize_sql, tokenize_loop, next_token, tokenize_identifier, tokenize_symbol, keyword_type,
  strings_equal_ignore_case,
}
use threaded_db_api_server.Lexer.Scan.{scan_word}
use threaded_db_api_server.Parser.{
  parse_statement, parse_next_statement, parser_skip_semicolons, parse_item, identifier, no_where,
}
use threaded_db_api_server.DbApi.{
  DbApi, db_api_init, prepared, prepare_tokens, prepare_sql, engine_reply, trim_whitespace,
  drop_last_spaces, skip_spaces,
}
use threaded_db_api_server.DbApi.Prepare.{
  prepare_tokens-parse_statement, Outcome, prepare_sql-Outcome,
}
use threaded_db_api_server.DbApi.Turns.{
  arrived, waiting, preloading, preloaded, reading, replied, take_turn, write_lock, read_lock,
  read_unlock, System, Reach, here, next, arrives, turns,
}
use threaded_db_api_server.DbApi.Counts.{writes, reads}
use threaded_db_api_server.DbApi.Serves.{
  IsReplied, CanTurn, write_lock-exclusive, reading-only_reads, Reach-CanTurn,
}
use threaded_db_api_server.Tests.Files.{dir, users}
use threaded_db_api_server.Tests.Statements.{select_tokens, select_users}

abbrev select_text : Bytes
select_text = codes "SELECT * FROM users"

json_extract-make_error_json_example :
    (json_extract_string_field
        (make_error_json (codes "EMPTY_QUERY") (codes "sql query is \"empty\""))
        (codes "error_code")
      ≡ field_ok (codes "EMPTY_QUERY"))
    × (json_extract_string_field
          (make_error_json (codes "EMPTY_QUERY") (codes "sql query is \"empty\""))
          (codes "message")
        ≡ field_ok (codes "sql query is \"empty\""))
unfolding all_readable
json_extract-make_error_json_example =
    json_extract-make_error_json (codes "EMPTY_QUERY") (codes "sql query is \"empty\"") refl refl

abbrev written : JsonBuffer
written = record { bytes = codes "{\"rows\":"; cap = 9 }

json_append-HasRoom_example :
    (grown : JsonBuffer) × (json_append written (codes "[]}") ≡ some grown)
    × (grown.bytes ≡ written.bytes ++ codes "[]}")
    × HasRoom grown
json_append-HasRoom_example = json_append-HasRoom written (codes "[]}") (omega arith)

-- Two columns of one row.
abbrev one_user : ExecResult
one_user = record {
  result_type = result_select;
  affected_rows = 0;
  query_result = record {
    columns = codes "id" ∷ codes "name" ∷ [];
    rows = (codes "1" ∷ codes "Kim" ∷ []) ∷ [];
  };
  used_index = true;
  has_generated_id = false;
  generated_id = 0;
}

one_user_json :
    make_success_json one_user
    ≡ codes
        "{\"success\":true,\"type\":\"select\",\"used_index\":true,\"row_count\":1,\"columns\":[\"id\",\"name\"],\"rows\":[[\"1\",\"Kim\"]]}"
unfolding make_success_json json_append_escaped_string escape_bytes print_u64
one_user_json = refl

prepare_tokens-parse_statement_example :
    (prepare_tokens select_tokens ≡ prepared select_users)
    ↔ (parse_statement select_tokens ≡ ok select_users)
prepare_tokens-parse_statement_example = prepare_tokens-parse_statement select_tokens select_users

prepare_sql-Outcome_example : Outcome select_text (prepare_sql select_text)
prepare_sql-Outcome_example = prepare_sql-Outcome select_text

-- a disk with the schema of a table without an id
abbrev names_only : Disk
names_only = record {
  file = λ p. if str_eq p (codes "db/users.schema") then some (codes "name\n") else none;
  denied = λ p. false;
}

abbrev all_users : SelectStatement
all_users = record { table_name = users; select_all = true; columns = []; where_clause = no_where }

abbrev start : DbApi
start = db_api_init names_only dir

-- Two requests have come, and the first is ready to lock.
abbrev two_requests : System
two_requests = record { api = start; requests = waiting select_users ∷ arrived select_text ∷ [] }

prepared_text : take_turn start (arrived select_text) ≡ some (start, waiting select_users)
unfolding take_turn prepare_sql trim_whitespace drop_last_spaces skip_spaces tokenize_sql
    tokenize_loop next_token tokenize_identifier scan_word tokenize_symbol prepare_tokens
    parser_skip_semicolons keyword_type strings_equal_ignore_case parse_next_statement parse_item
    identifier
prepared_text = refl

two_requests-Reach : Reach start two_requests
two_requests-Reach =
    next (next (next here (arrives select_text)) (arrives select_text)) (turns 0 refl prepared_text)

-- The first preloads its table.
abbrev one_writes : System
one_writes = record {
  api = write_lock start;
  requests = preloading all_users ∷ arrived select_text ∷ [];
}

locked : take_turn start (waiting select_users) ≡ some (write_lock start, preloading all_users)
unfolding take_turn db_api_init
locked = refl

one_writes-Reach : Reach start one_writes
one_writes-Reach = next two_requests-Reach (turns 0 refl locked)

write_lock-exclusive_example :
    (writes (arrived select_text) ≡ 0) × (reads (arrived select_text) ≡ 0)
write_lock-exclusive_example =
    write_lock-exclusive names_only dir one_writes 0 1 (preloading all_users) (arrived select_text)
      one_writes-Reach (cc) refl refl refl

Reach-CanTurn_example : All IsReplied one_writes.requests ⊎ CanTurn one_writes
Reach-CanTurn_example = Reach-CanTurn names_only dir one_writes one_writes-Reach

-- Its table is loaded, and the lock is let go.
abbrev loaded_api : DbApi
loaded_api =
    let loaded = runtime_preload_table names_only (db_api_init names_only dir).ctx users in
    record { disk = loaded.0; ctx = loaded.1; db_rwlock = record { readers = 0; writing = false } }

preload_turn :
    take_turn (write_lock start) (preloading all_users) ≡ some (loaded_api, preloaded all_users)
unfolding take_turn runtime_preload_table get_or_load_table_runtime load_table_schema
    build_table_path str_eq db_api_init init_execution_context read_line ensure_table_data_file
    schema_find_column_index strip_cr c_str trim_in_place
preload_turn = refl

abbrev one_reads : System
one_reads = record {
  api = read_lock loaded_api;
  requests = reading all_users ∷ arrived select_text ∷ [];
}

read_turn :
    take_turn loaded_api (preloaded all_users) ≡ some (read_lock loaded_api, reading all_users)
unfolding take_turn
read_turn = refl

one_reads-Reach : Reach start one_reads
one_reads-Reach = next (next one_writes-Reach (turns 0 refl preload_turn)) (turns 0 refl read_turn)

reading-only_reads_example :
    (t : TableRuntime) × (j : ℕ) × (get_elem? (read_lock loaded_api).ctx.tables j ≡ some t)
    × (t.table_name ≡ all_users.table_name)
    × (take_turn (read_lock loaded_api) (reading all_users)
        ≡ some (
          read_unlock (read_lock loaded_api),
          replied (engine_reply (select_from loaded_api.disk loaded_api.ctx t all_users)),
        ))
reading-only_reads_example =
    reading-only_reads names_only dir one_reads 0 all_users one_reads-Reach refl
