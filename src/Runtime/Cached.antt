-- ===== src/Runtime/Cached.antt =====
-- src/runtime.c: a cached table against its file.
use threaded_db_api_server.Prelude.{ℕ, ◌+◌, ◌%◌, ◌^◌, ◌≤◌, ◌≡◌, true, some, List, length}
use threaded_db_api_server.Prelude.Bytes.{Bytes, codes}
use threaded_db_api_server.Disk.{Disk}
use threaded_db_api_server.Ids.{u64_max}
use threaded_db_api_server.Schema.{schema_find_column_index}
use threaded_db_api_server.Storage.Fields.{Row}
use threaded_db_api_server.Storage.Table.Scan.{HasRows}
use threaded_db_api_server.Runtime.{TableRuntime}
use threaded_db_api_server.Runtime.Indexed.{Indexed}

-- A table with the id column `i`, whose file has the rows and whose tree is their index; `max_id` is
-- the largest id given so far.
pub record IsCached (d : Disk) (db_dir : Bytes) (table : TableRuntime) (i max_id : ℕ)
    (rows : List (ℕ × Row)) : Type 0 where
  pub named : table.schema.table_name ≡ table.table_name
  pub stored : HasRows d db_dir table.table_name (length table.schema.columns) rows
  pub id_column : schema_find_column_index table.schema (codes "id") ≡ some i
  pub has_id : table.has_id_column ≡ true
  pub at_index : table.id_column_index ≡ some i
  pub ready : table.id_index_ready ≡ true
  pub indexed : Indexed i rows table.id_index max_id
  pub next : table.next_id ≡ (max_id + 1) % 2 ^ 64
  pub in_range : max_id ≤ u64_max
