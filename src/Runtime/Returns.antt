-- ===== src/Runtime/Returns.antt =====
-- src/schema.c, src/runtime.c: loading a table returns.
use threaded_db_api_server.Prelude.{ℕ, ◌≡◌, refl, Option, none, some}
use threaded_db_api_server.Prelude.Bytes.{Bytes, codes}
use threaded_db_api_server.Errors.{index_error, schema_error, Result, ok, err}
use threaded_db_api_server.Errors.Outcome.{
  Returns, refuses, delivers, Returns-one, as_status-IsReturned,
}
use threaded_db_api_server.Disk.{Disk}
use threaded_db_api_server.BpTree.{BpTree}
use threaded_db_api_server.Schema.{TableSchema, schema_find_column_index}
use threaded_db_api_server.Schema.Columns.{load_table_schema-Returns}
use threaded_db_api_server.Storage.Table.{ensure_table_data_file}
use threaded_db_api_server.Runtime.{
  ExecutionContext, TableRuntime, build_id_index_for_table, find_table, cache_table, cache_indexed,
  unindexed, load_index, load_data, load_table, get_or_load_table_runtime,
}
use threaded_db_api_server.Runtime.Build.{build_id_index-err}

cache_indexed-Returns :
    (ctx : ExecutionContext) (table : TableRuntime) (r : Result (BpTree × ℕ))
    → Returns r
    → Returns (cache_indexed ctx table r)
unfolding cache_indexed cache_table
cache_indexed-Returns ctx table (ok index) h = delivers tt
cache_indexed-Returns ctx table (err e) (refuses h) =
    refuses (as_status-IsReturned e index_error h tt)

load_index-Returns :
    (d : Disk) (ctx : ExecutionContext) (schema : TableSchema) (name : Bytes) (column : Option ℕ)
    → Returns (load_index d ctx schema name column)
unfolding load_index cache_table
load_index-Returns d ctx schema name none = delivers tt
load_index-Returns d ctx schema name (some i) =
    cache_indexed-Returns ctx (unindexed schema name (some i))
      (build_id_index_for_table d ctx.db_dir schema i)
      (Returns-one index_error _ tt (build_id_index-err d ctx.db_dir schema i))

load_data-Returns :
    (ctx : ExecutionContext) (schema : TableSchema) (name : Bytes) (p : Disk × Result (Unit {0}))
    → Returns (load_data ctx schema name p).1
unfolding load_data
load_data-Returns ctx schema name (d, err e) = refuses tt
load_data-Returns ctx schema name (d, ok u) =
    load_index-Returns d ctx schema name (schema_find_column_index schema (codes "id"))

load_table-Returns :
    (d : Disk) (ctx : ExecutionContext) (name : Bytes) (r : Result TableSchema)
    → Returns r
    → Returns (load_table d ctx name r).1
unfolding load_table
load_table-Returns d ctx name (err e) (refuses h) =
    refuses (as_status-IsReturned e schema_error h tt)
load_table-Returns d ctx name (ok schema) h =
    load_data-Returns ctx schema name (ensure_table_data_file d ctx.db_dir name)

-- Loading a table returns.
pub get_or_load-Returns :
    (d : Disk) (ctx : ExecutionContext) (name : Bytes)
    → Returns (get_or_load_table_runtime d ctx name).1
unfolding get_or_load_table_runtime
get_or_load-Returns d ctx name = go (find_table ctx.tables name 0) refl
  where
    go :
        (o : Option (ℕ × TableRuntime))
        → find_table ctx.tables name 0 ≡ o
        → Returns (get_or_load_table_runtime d ctx name).1
    go none e =
        rw (e, get_or_load_table_runtime)
          (load_table-Returns d ctx name _ (load_table_schema-Returns d ctx.db_dir name))
    go (some (i, t)) e = rw (e, get_or_load_table_runtime) (delivers tt)
