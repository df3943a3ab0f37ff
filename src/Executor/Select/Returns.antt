-- ===== src/Executor/Select/Returns.antt =====
-- src/executor.c: SELECT returns.
use threaded_db_api_server.Prelude.{ℕ, ◌≢◌, refl, not, ◌&&◌, ◌==◌, Option, none, some, length}
use threaded_db_api_server.Errors.{Result, ok, err}
use threaded_db_api_server.Errors.Outcome.{Returns, refuses, delivers, Ensures-if, Ensures-bind}
use threaded_db_api_server.Disk.{Disk}
use threaded_db_api_server.Schema.{TableSchema, schema_find_column_index}
use threaded_db_api_server.Storage.Fields.{Row}
use threaded_db_api_server.Storage.Table.{Scanned, finished, broken, out_of_fuel}
use threaded_db_api_server.Storage.Table.Scan.{scan_ends}
use threaded_db_api_server.Runtime.{
  TableRuntime, ExecutionContext, Loaded, get_or_load_table_runtime,
}
use threaded_db_api_server.Runtime.Returns.{get_or_load-Returns}
use threaded_db_api_server.Executor.{SelectStatement, QueryResult}
use threaded_db_api_server.Executor.Select.{
  known_columns, is_some, validate_select_columns, row_matches_where_clause,
  select_full_scan_callback, can_use_id_index, found_row, select_at, execute_select_with_id_index,
  where_index_of, finish_scan, execute_select_with_full_scan, select_rows, select_from,
  initialize_query_result_columns, select_loaded, execute_select,
}

validate_select-Returns :
    (schema : TableSchema) (stmt : SelectStatement) → Returns (validate_select_columns schema stmt)
unfolding validate_select_columns
validate_select-Returns schema stmt =
    Ensures-if (not stmt.select_all && length stmt.columns == 0) (λ _. refuses tt)
      λ _.
        Ensures-if (not stmt.select_all && not (known_columns schema stmt.columns))
          (λ _. refuses tt)
          λ _.
            Ensures-if
              (stmt.where_clause.has_condition
                && not (is_some (schema_find_column_index schema stmt.where_clause.column_name)))
              (λ _. refuses tt) (λ _. delivers tt)

found_row-Returns :
    (table : TableRuntime) (stmt : SelectStatement) (r : Result Row)
    → Returns (found_row table stmt r)
unfolding found_row
found_row-Returns table stmt (err e) = refuses tt
found_row-Returns table stmt (ok row) =
    Ensures-if (not (row_matches_where_clause stmt table.id_column_index row)) (λ _. delivers tt)
      (λ _. delivers tt)

select_at-Returns :
    (d : Disk) (ctx : ExecutionContext) (table : TableRuntime) (stmt : SelectStatement)
    (o : Option ℕ)
    → Returns (select_at d ctx table stmt o)
unfolding select_at
select_at-Returns d ctx table stmt none = delivers tt
select_at-Returns d ctx table stmt (some row_offset) = found_row-Returns table stmt _

finish_scan-Returns : (r : Scanned QueryResult) → r ≢ out_of_fuel → Returns (finish_scan r)
unfolding finish_scan
finish_scan-Returns (finished result) h = delivers tt
finish_scan-Returns (broken result) h = refuses tt
finish_scan-Returns out_of_fuel h = absurd (h refl)

select_rows-Returns :
    (d : Disk) (ctx : ExecutionContext) (table : TableRuntime) (stmt : SelectStatement)
    (o : Option ℕ)
    → Returns (select_rows d ctx table stmt o)
unfolding select_rows execute_select_with_full_scan execute_select_with_id_index
select_rows-Returns d ctx table stmt none = finish_scan-Returns _ (
    scan_ends (select_full_scan_callback table.schema stmt (where_index_of table stmt))
      (length table.schema.columns) d ctx.db_dir table.table_name
      (initialize_query_result_columns table.schema stmt))
select_rows-Returns d ctx table stmt (some id_key) = select_at-Returns d ctx table stmt _

pub execute_select-Returns :
    (d : Disk) (ctx : ExecutionContext) (stmt : SelectStatement)
    → Returns (execute_select d ctx stmt).2
unfolding execute_select select_loaded select_from
execute_select-Returns d ctx stmt =
    go (get_or_load_table_runtime d ctx stmt.table_name) (get_or_load-Returns d ctx stmt.table_name)
  where
    go : (l : Loaded) → Returns l.1 → Returns (select_loaded stmt ctx l).2
    go (d', err e) (refuses h) = refuses h
    go (d', ok (ctx', i, table)) h = Ensures-bind (validate_select-Returns table.schema stmt) λ u _.
        Ensures-bind (select_rows-Returns d' ctx' table stmt (can_use_id_index table stmt))
          λ s _. delivers tt
