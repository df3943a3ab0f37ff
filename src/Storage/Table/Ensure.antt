-- ===== src/Storage/Table/Ensure.antt =====
-- src/storage.c: `ensure_table_data_file` creates what is missing and nothing else.
use threaded_db_api_server.Prelude.{ℕ, ◌≡◌, refl, List}
use threaded_db_api_server.Prelude.Bytes.{Bytes}
use threaded_db_api_server.Errors.{ok}
use threaded_db_api_server.Disk.{Disk, file-write_file_self, denied-write_file}
use threaded_db_api_server.Storage.Fields.{Row}
use threaded_db_api_server.Storage.Table.Scan.{HasRows}
use threaded_db_api_server.Storage.Table.{ensure_table_data_file}

-- It succeeds on a table that can be opened, and leaves its rows.
pub ensure-HasRows :
    {d : Disk} {db_dir table_name : Bytes} {expected : ℕ} {rows : List (ℕ × Row)}
    → HasRows d db_dir table_name expected rows
    → let (d', r) = ensure_table_data_file d db_dir table_name in
      (r ≡ ok tt) × HasRows d' db_dir table_name expected rows
unfolding ensure_table_data_file
ensure-HasRows {d} {db_dir} {table_name} w = rw w.allowed (
  refl,
  record {
    allowed = rw denied-write_file w.allowed;
    terminated = rw file-write_file_self w.terminated;
    parses = rw file-write_file_self w.parses;
  },
)
