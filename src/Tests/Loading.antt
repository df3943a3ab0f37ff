-- ===== src/Tests/Loading.antt =====
-- A schema file of src/schema.c, and the loading of a table of src/runtime.c.
use threaded_db_api_server.Prelude.{◌≡◌, refl, false, none, some, [], if◌then◌else◌, ap, ◌∙◌}
use threaded_db_api_server.Prelude.Bytes.{codes, str_eq, c_str}
use threaded_db_api_server.Disk.{Disk, build_table_path}
use threaded_db_api_server.BpTree.{bptree_init, bptree_insert}
use threaded_db_api_server.Schema.{load_table_schema, trim_in_place}
use threaded_db_api_server.Errors.{ok}
use threaded_db_api_server.Ids.{parse_canonical_positive_uint64}
use threaded_db_api_server.Storage.Lines.{read_line, strip_cr}
use threaded_db_api_server.Storage.Lines.Extend.{read_line-nil}
use threaded_db_api_server.Storage.Table.Rows.{eof}
use threaded_db_api_server.Runtime.{
  build_id_index_callback, finish_index, build_id_index_for_table, ExecutionContext, find_table,
  get_or_load_table_runtime,
}
use threaded_db_api_server.Storage.Table.Scan.{scan-HasRows, fold_rows, HasRows}
use threaded_db_api_server.Runtime.Load.{LoadOutcome, get_or_load-LoadOutcome}
use threaded_db_api_server.Tests.Files.{dir, users, one_row, one_row-HasRows}
use threaded_db_api_server.Tests.Tables.{user_schema, one_id, id_at_zero}

-- a disk with the schema alone
abbrev schema_only : Disk
schema_only = record {
  file = λ p. if str_eq p (codes "db/users.schema") then some (codes "id\nname\n") else none;
  denied = λ p. false;
}

abbrev nothing_cached : ExecutionContext
nothing_cached = record { db_dir = dir; tables = [] }

schema_read : load_table_schema schema_only dir users ≡ ok user_schema
unfolding load_table_schema build_table_path str_eq read_line strip_cr c_str trim_in_place
schema_read = refl

schema_only-HasRows : HasRows schema_only dir users 2 []
unfolding build_table_path str_eq
schema_only-HasRows = record { allowed = refl; terminated = tt; parses = eof read_line-nil }

none_found : find_table [] users 0 ≡ none
unfolding find_table
none_found = refl

get_or_load-LoadOutcome_example :
    LoadOutcome nothing_cached 0 [] (get_or_load_table_runtime schema_only nothing_cached users)
get_or_load-LoadOutcome_example =
    get_or_load-LoadOutcome schema_only nothing_cached users user_schema 0 [] none_found schema_read
      schema_only-HasRows id_at_zero

one_row_index : build_id_index_for_table one_row dir user_schema 0 ≡ ok (one_id, 2)
unfolding build_id_index_for_table build_id_index_callback finish_index fold_rows bptree_insert
    bptree_init parse_canonical_positive_uint64
one_row_index =
    ap finish_index (scan-HasRows (build_id_index_callback 0) 2 _ one_row-HasRows) ∙ refl
