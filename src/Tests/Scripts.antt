-- ===== src/Tests/Scripts.antt =====
-- A script of two statements, of src/main.c, and the arguments of the server of src/server_main.c.
use threaded_db_api_server.Prelude.{
  ℕ, ◌≡◌, ◌≢◌, refl, inr, true, false, Option, some, List, [], ◌∷◌,
}
use threaded_db_api_server.Prelude.Bytes.{Bytes, codes, c_str, str_eq}
use threaded_db_api_server.Errors.{out_of_rounds, ok, err}
use threaded_db_api_server.Disk.{Disk, write_file}
use threaded_db_api_server.Lexer.{
  tokenize_sql, tokenize_loop, tokenize_number, tokenize_identifier, tokenize_symbol, next_token,
  keyword_type, strings_equal_ignore_case,
}
use threaded_db_api_server.Ids.{parse_digits}
use threaded_db_api_server.Lexer.Scan.{scan_word, scan_number}
use threaded_db_api_server.Runtime.{init_execution_context}
use threaded_db_api_server.Executor.{value_number, Statement, insert_stmt, select_stmt}
use threaded_db_api_server.Parser.{no_where}
use threaded_db_api_server.Parser.Print.{semicolons, list_tokens, tail_tokens}
use threaded_db_api_server.DbApi.{trim_whitespace, skip_spaces, drop_last_spaces}
use threaded_db_api_server.Cli.{parse_cli_args, parse_from, is_option}
use threaded_db_api_server.Script.{Run, read_text_file, run_main}
use threaded_db_api_server.Script.Ends.{run_main_ends}
use threaded_db_api_server.Script.Runs.{run_all, script, AllParsed, run_main-run_all}
use threaded_db_api_server.Storage.Table.{append_row_to_table_with_offset}
use threaded_db_api_server.Server.Run.{is_valid_config}
use threaded_db_api_server.ServerMain
use threaded_db_api_server.ServerMain.{serves, parse_server_args, parse_int_arg, parse_size_arg}
use threaded_db_api_server.ServerMain.Accepts.{parse_server_args-is_valid_config}
use threaded_db_api_server.Tests.Clients.{digits_only}
use threaded_db_api_server.Tests.Files.{one_row, dir, users}

abbrev sql_path : Bytes
sql_path = codes "a.sql"

abbrev sql_text : Bytes
sql_text = codes ";INSERT INTO users VALUES (7);;SELECT * FROM users "

abbrev with_script : Disk
with_script = write_file one_row sql_path sql_text

abbrev script_args : List Bytes
script_args = codes "-d" ∷ dir ∷ codes "--file" ∷ sql_path ∷ []

asked_script :
    parse_cli_args script_args
    ≡ ok (record { db_dir = some dir; sql_file = some sql_path; help_requested = false })
unfolding parse_cli_args parse_from is_option str_eq
asked_script = refl

read_script_text : read_text_file with_script sql_path ≡ some sql_text
unfolding read_text_file write_file str_eq append_row_to_table_with_offset
read_script_text = refl

abbrev insert_seven : Statement
insert_seven = insert_stmt (record {
  table_name = users;
  columns = [];
  values = record { value_type = value_number; text = codes "7" } ∷ [];
})

abbrev select_users : Statement
select_users =
    select_stmt
      (record { table_name = users; select_all = true; columns = []; where_clause = no_where })

script_tokens :
    tokenize_sql (trim_whitespace (c_str sql_text))
    ≡ ok (semicolons 1 (script ((insert_seven, 2) ∷ (select_users, 0) ∷ [])))
unfolding tokenize_sql tokenize_loop next_token tokenize_identifier tokenize_number tokenize_symbol
    scan_word scan_number keyword_type strings_equal_ignore_case trim_whitespace skip_spaces
    drop_last_spaces c_str list_tokens tail_tokens
script_tokens = refl

script-AllParsed : AllParsed ((insert_seven, 2) ∷ (select_users, 0) ∷ [])
script-AllParsed = (tt, ((refl, inr refl), tt))

run_main-run_all_example :
    run_main with_script script_args
    ≡ some (run_all with_script (init_execution_context dir) [] (insert_seven ∷ select_users ∷ []))
run_main-run_all_example =
    run_main-run_all with_script script_args dir sql_path sql_text 1 (insert_seven, 2)
      ((select_users, 0) ∷ []) asked_script read_script_text script-AllParsed script_tokens

run_main_ends_example :
    (r : Run) × (run_main with_script script_args ≡ some r) × (r.status ≢ err out_of_rounds)
run_main_ends_example = run_main_ends with_script script_args

-- A `strtol` for texts of digits.
abbrev some_of : ℕ × Bytes → Option ℕ × Bytes
some_of (n, rest) = (some n, rest)

asked_server :
    parse_server_args
      (λ text. some_of (digits_only text))
      digits_only
      (codes "--db" ∷ dir ∷ codes "-p" ∷ codes "80" ∷ codes "-t" ∷ codes "2" ∷ [])
    ≡ some (serves (record { db_dir = dir; port = 80; thread_count = 2; queue_capacity = 64 }))
unfolding parse_server_args ServerMain.parse_from is_option str_eq parse_int_arg parse_size_arg
    parse_digits
asked_server = refl

parse_server_args-is_valid_config_example :
    is_valid_config (record { db_dir = dir; port = 80; thread_count = 2; queue_capacity = 64 })
    ≡ true
parse_server_args-is_valid_config_example =
    parse_server_args-is_valid_config (λ text. some_of (digits_only text)) digits_only
      (codes "--db" ∷ dir ∷ codes "-p" ∷ codes "80" ∷ codes "-t" ∷ codes "2" ∷ [])
      (record { db_dir = dir; port = 80; thread_count = 2; queue_capacity = 64 }) asked_server
