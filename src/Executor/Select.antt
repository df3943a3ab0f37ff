-- ===== src/Executor/Select.antt =====
-- src/executor.c: SELECT by the id index, and by a scan of the whole table.
pub mod FullScan
pub mod SameRows
pub mod Cached
pub mod Returns
use threaded_db_api_server.Prelude.{
  ℕ, zero, suc, ◌+◌, ◌<◌, Bool, true, false, not, ◌||◌, ◌&&◌, Option, none, some, List, [], ◌∷◌,
  ◌++◌, map, if◌then◌else◌, length, get_elem?, get_or, ltb, ◌==◌,
}
use threaded_db_api_server.Prelude.Bytes.{Bytes, codes, str_eq}
use threaded_db_api_server.Errors.{
  Status, exec_error, index_error, storage_error, out_of_rounds, Result, ok, err, ◌>>=◌,
}
use threaded_db_api_server.Disk.{Disk}
use threaded_db_api_server.Ids.{parse_canonical_positive_uint64}
use threaded_db_api_server.Schema.{TableSchema, schema_find_column_index}
use threaded_db_api_server.Storage.Fields.{Row}
use threaded_db_api_server.Storage.Table.{
  Signal, proceed, Scanned, finished, broken, out_of_fuel, scan_table_rows_with_offsets,
  read_row_at_offset,
}
use threaded_db_api_server.BpTree.{bptree_search}
use threaded_db_api_server.Runtime.{
  TableRuntime, ExecutionContext, Loaded, get_or_load_table_runtime,
}
use threaded_db_api_server.Executor.{
  LiteralValue, SelectStatement, QueryResult, ExecResult, result_select,
}

abbrev pub is_some {ℓ} : {A : Type ℓ} → Option A → Bool
is_some none = false
is_some (some a) = true

-- the loop over the projection
pub known_columns : TableSchema → List Bytes → Bool
known_columns schema [] = true
known_columns schema (c ∷ cs) =
    let rest = known_columns schema cs in
    if is_some (schema_find_column_index schema c) then rest else false

pub validate_select_columns : TableSchema → SelectStatement → Result (Unit {0})
unfolding known_columns
validate_select_columns schema stmt =
    if not stmt.select_all && length stmt.columns == 0
    then err exec_error
    else if not stmt.select_all && not (known_columns schema stmt.columns)
    then err exec_error
    else if stmt.where_clause.has_condition
        && not (is_some (schema_find_column_index schema stmt.where_clause.column_name))
    then err exec_error
    else ok tt

-- `initialize_query_result_columns`
pub initialize_query_result_columns : TableSchema → SelectStatement → QueryResult
initialize_query_result_columns schema stmt = record {
  columns = if stmt.select_all then schema.columns else stmt.columns;
  rows = [];
}

-- the value at `where_index` against the literal
matches_at : SelectStatement → Row → Option ℕ → Bool
matches_at stmt row none = false
matches_at stmt row (some i) = elim (get_elem? row i) [
  | none ↦ false
  | some current_value ↦ str_eq current_value stmt.where_clause.value.text
]

unfoldable pub row_matches_where_clause : SelectStatement → Option ℕ → Row → Bool
unfolding matches_at
row_matches_where_clause stmt where_index row =
    if not stmt.where_clause.has_condition then true else matches_at stmt row where_index

-- `n` values from the index `i` on
project_all : ℕ → ℕ → Row → Row
project_all zero i row = []
project_all (suc n) i row = get_or row i [] ∷ project_all n (i + 1) row

project_column : TableSchema → Row → Bytes → Bytes
project_column schema row column_name = elim (schema_find_column_index schema column_name) [
  | none ↦ []
  | some i ↦ get_or row i []
]

pub project_single_row : TableSchema → SelectStatement → Row → Row
unfolding project_all project_column
project_single_row schema stmt source_row =
    if stmt.select_all
    then project_all (length schema.columns) 0 source_row
    else map (project_column schema source_row) stmt.columns

abbrev pub append_result_row : QueryResult → Row → QueryResult
append_result_row result projected_row = record result {
  rows = result.rows ++ (projected_row ∷ []);
}

pub select_full_scan_callback :
    TableSchema → SelectStatement → Option ℕ → Row → ℕ → QueryResult → Signal QueryResult
select_full_scan_callback schema stmt where_index row row_offset result =
    if not (row_matches_where_clause stmt where_index row)
    then proceed result
    else proceed (append_result_row result (project_single_row schema stmt row))

-- `none` is the result 0
unfoldable pub can_use_id_index : TableRuntime → SelectStatement → Option ℕ
can_use_id_index table stmt =
    if not table.has_id_column || not table.id_index_ready
    then none
    else if not stmt.where_clause.has_condition
    then none
    else if not (str_eq stmt.where_clause.column_name (codes "id"))
    then none
    else parse_canonical_positive_uint64 stmt.where_clause.value.text

-- the query result and `used_index`
abbrev pub Selected : Type 0
Selected = QueryResult × Bool

-- the row that the index led to
pub found_row : TableRuntime → SelectStatement → Result Row → Result Selected
found_row table stmt (err e) = err storage_error
found_row table stmt (ok source_row) =
    let result = initialize_query_result_columns table.schema stmt in
    if not (row_matches_where_clause stmt table.id_column_index source_row)
    then ok (result, true)
    else ok (append_result_row result (project_single_row table.schema stmt source_row), true)

pub select_at :
    Disk → ExecutionContext → TableRuntime → SelectStatement → Option ℕ → Result Selected
unfolding found_row
select_at d ctx table stmt none = ok (initialize_query_result_columns table.schema stmt, true)
select_at d ctx table stmt (some row_offset) =
    found_row table stmt
      (read_row_at_offset d ctx.db_dir table.table_name row_offset (length table.schema.columns))

pub execute_select_with_id_index :
    Disk → ExecutionContext → TableRuntime → SelectStatement → ℕ → Result Selected
unfolding select_at
execute_select_with_id_index d ctx table stmt id_key =
    select_at d ctx table stmt (bptree_search table.id_index id_key)

abbrev pub where_index_of : TableRuntime → SelectStatement → Option ℕ
where_index_of table stmt =
    if stmt.where_clause.has_condition
    then schema_find_column_index table.schema stmt.where_clause.column_name
    else none

-- the query result when the scan ends
pub finish_scan : Scanned QueryResult → Result Selected
finish_scan (finished result) = ok (result, false)
finish_scan (broken result) = err storage_error
finish_scan out_of_fuel = err out_of_rounds

pub execute_select_with_full_scan :
    Disk → ExecutionContext → TableRuntime → SelectStatement → Result Selected
unfolding finish_scan select_full_scan_callback
execute_select_with_full_scan d ctx table stmt = finish_scan (
    scan_table_rows_with_offsets
      (select_full_scan_callback table.schema stmt (where_index_of table stmt))
      (length table.schema.columns) d ctx.db_dir table.table_name
      (initialize_query_result_columns table.schema stmt))

-- the choice between the two paths
pub select_rows :
    Disk → ExecutionContext → TableRuntime → SelectStatement → Option ℕ → Result Selected
select_rows d ctx table stmt none = execute_select_with_full_scan d ctx table stmt
select_rows d ctx table stmt (some id_key) = execute_select_with_id_index d ctx table stmt id_key

abbrev pub select_result : Selected → ExecResult
select_result (result, used_index) = record {
  result_type = result_select;
  affected_rows = length result.rows;
  query_result = result;
  used_index = used_index;
  has_generated_id = false;
  generated_id = 0;
}

-- behind the loading of the table
pub select_from : Disk → ExecutionContext → TableRuntime → SelectStatement → Result ExecResult
unfolding validate_select_columns can_use_id_index select_rows
select_from d ctx table stmt = validate_select_columns table.schema stmt >>= λ u.
    select_rows d ctx table stmt (can_use_id_index table stmt) >>= λ s. ok (select_result s)

select_loaded :
    SelectStatement → ExecutionContext → Loaded → Disk × ExecutionContext × Result ExecResult
unfolding select_from
select_loaded stmt ctx (d, err e) = (d, ctx, err e)
select_loaded stmt ctx (d, ok (ctx', i, table)) = (d, ctx', select_from d ctx' table stmt)

pub execute_select :
    Disk → ExecutionContext → SelectStatement → Disk × ExecutionContext × Result ExecResult
unfolding select_loaded
execute_select d ctx stmt = select_loaded stmt ctx (get_or_load_table_runtime d ctx stmt.table_name)
