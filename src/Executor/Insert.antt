-- ===== src/Executor/Insert.antt =====
-- src/executor.c: INSERT, with and without a generated id, and `execute_statement`.
pub mod GeneratedRow
pub mod Faults
pub mod Keeps
pub mod Selects
pub mod Cached
pub mod Plain
pub mod Returns
use threaded_db_api_server.Prelude.{
  ℕ, zero, suc, ◌+◌, ◌-◌, ◌%◌, ◌^◌, ◌<◌, Bool, true, false, not, ◌||◌, ◌&&◌, Option, none, some,
  List, [], ◌∷◌, ◌++◌, map, if◌then◌else◌, length, get_elem?, get_or, ltb, ◌==◌, set, replicate,
}
use threaded_db_api_server.Prelude.Bytes.{Bytes, codes, str_eq}
use threaded_db_api_server.Errors.{
  Status, exec_error, index_error, storage_error, Result, ok, err, ◌>>=◌,
}
use threaded_db_api_server.Disk.{Disk}
use threaded_db_api_server.Ids.{print_u64}
use threaded_db_api_server.Schema.{TableSchema, schema_find_column_index}
use threaded_db_api_server.Storage.Fields.{Row}
use threaded_db_api_server.Storage.Table.{append_row_to_table_with_offset}
use threaded_db_api_server.BpTree.{BpTree, bptree_insert}
use threaded_db_api_server.Runtime.{
  TableRuntime, ExecutionContext, Loaded, get_or_load_table_runtime,
}
use threaded_db_api_server.Executor.{
  LiteralValue, InsertStatement, ExecResult, result_insert, empty_query_result, Statement,
  insert_stmt, select_stmt,
}
use threaded_db_api_server.Executor.Select.{execute_select}

abbrev pub text_of : LiteralValue → Bytes
text_of v = v.text

-- The loop over the column list of `build_insert_row_existing_behavior`. The two lists are of one
-- length there.
fill_columns : TableSchema → List Bytes → List LiteralValue → Row → List Bool → Result Row
fill_columns schema (c ∷ cs) (v ∷ vs) row seen = elim (schema_find_column_index schema c) [
  | none ↦ err exec_error
  | some i ↦
      let rest = fill_columns schema cs vs (set row i v.text) (set seen i true) in
      if get_or seen i false then err exec_error else rest
]
fill_columns schema _ _ row seen = ok row

pub build_insert_row_existing_behavior : TableSchema → InsertStatement → Result Row
unfolding fill_columns
build_insert_row_existing_behavior schema stmt =
    let count = length schema.columns in
    if length stmt.columns == 0
    then if not (length stmt.values == count) then err exec_error else ok (map text_of stmt.values)
    else if not (length stmt.columns == length stmt.values)
    then err exec_error
    else fill_columns schema stmt.columns stmt.values (replicate count []) (replicate count false)

-- the loop over the column list of `validate_insert_columns_for_auto_id`
pub check_columns : TableSchema → ℕ → List Bytes → List Bool → Result (Unit {0})
check_columns schema id_column_index [] seen = ok tt
check_columns schema id_column_index (c ∷ cs) seen = elim (schema_find_column_index schema c) [
  | none ↦ err exec_error
  | some i ↦
      let rest = check_columns schema id_column_index cs (set seen i true) in
      if i == id_column_index
      then err exec_error
      else if get_or seen i false
      then err exec_error
      else rest
]

-- for a table with an id column, at `id_column_index`
unfoldable pub validate_insert_columns_for_auto_id :
    TableSchema → ℕ → InsertStatement → Result (Unit {0})
unfolding check_columns
validate_insert_columns_for_auto_id schema id_column_index stmt =
    if length stmt.columns == 0
    then if not (length stmt.values == length schema.columns - 1) then err exec_error else ok tt
    else if not (length stmt.columns == length stmt.values)
    then err exec_error
    else check_columns schema id_column_index stmt.columns (replicate (length schema.columns) false)

-- `n` columns from the index `i` on, each but the one of the id with the next value,
-- of which there are enough where the count was checked before
pub place_values : ℕ → ℕ → ℕ → Bytes → List LiteralValue → Row
place_values zero i id_column_index id_text vs = []
place_values (suc n) i id_column_index id_text [] =
    (if i == id_column_index then id_text else [])
    ∷ place_values n (i + 1) id_column_index id_text []
place_values (suc n) i id_column_index id_text (v ∷ vs) =
    let skipped = place_values n (i + 1) id_column_index id_text (v ∷ vs) in
    let placed = place_values n (i + 1) id_column_index id_text vs in
    if i == id_column_index then id_text ∷ skipped else v.text ∷ placed

-- each value at its column
pub place_columns : TableSchema → ℕ → List Bytes → List LiteralValue → Row → Result Row
place_columns schema id_column_index (c ∷ cs) (v ∷ vs) row =
    elim (schema_find_column_index schema c) [
      | none ↦ err exec_error
      | some i ↦
          let rest = place_columns schema id_column_index cs vs (set row i v.text) in
          if i == id_column_index then err exec_error else rest
    ]
place_columns schema id_column_index _ _ row = ok row

unfoldable pub build_insert_row_with_generated_id :
    TableSchema → ℕ → InsertStatement → ℕ → Result Row
unfolding place_values place_columns
build_insert_row_with_generated_id schema id_column_index stmt generated_id =
    let count = length schema.columns in
    let id_text = print_u64 generated_id in
    if length stmt.columns == 0
    then ok (place_values count 0 id_column_index id_text stmt.values)
    else place_columns schema id_column_index stmt.columns stmt.values
        (set (replicate count []) id_column_index id_text)

-- What an INSERT leaves: the files, the table in the cache, and its result.
abbrev pub Inserted : Type 0
Inserted = Disk × TableRuntime × Result ExecResult

abbrev pub insert_result : Bool → ℕ → ExecResult
insert_result has_generated_id generated_id = record {
  result_type = result_insert;
  affected_rows = 1;
  query_result = empty_query_result;
  used_index = false;
  has_generated_id = has_generated_id;
  generated_id = generated_id;
}

-- behind the insertion into the index
pub index_row : Disk → TableRuntime → ℕ → Option BpTree → Inserted
index_row d table generated_id none = (d, table, err index_error)
index_row d table generated_id (some tree) = (
  d,
  record table { id_index = tree; next_id = (table.next_id + 1) % 2 ^ 64; id_index_ready = true },
  ok (insert_result true generated_id),
)

-- behind the append to the file
pub append_indexed : TableRuntime → ℕ → Disk × Result ℕ → Inserted
unfolding index_row
append_indexed table generated_id (d, err e) = (d, table, err storage_error)
append_indexed table generated_id (d, ok row_offset) =
    index_row d table generated_id (bptree_insert table.id_index generated_id row_offset)

-- the row with its generated id, if it can be made
pub store_generated : Disk → ExecutionContext → TableRuntime → Bytes → Result Row → Inserted
unfolding append_indexed
store_generated d ctx table table_name (err e) = (d, table, err e)
store_generated d ctx table table_name (ok row) =
    append_indexed table table.next_id (append_row_to_table_with_offset d ctx.db_dir table_name row)

-- behind the check of the columns
pub insert_valid :
    Disk → ExecutionContext → TableRuntime → ℕ → InsertStatement → Result (Unit {0}) → Inserted
unfolding store_generated
insert_valid d ctx table i stmt (err e) = (d, table, err e)
insert_valid d ctx table i stmt (ok u) =
    if table.next_id == 0
    then (d, table, err exec_error)
    else store_generated d ctx table stmt.table_name
        (build_insert_row_with_generated_id table.schema i stmt table.next_id)

append_plain : TableRuntime → Disk × Result ℕ → Inserted
append_plain table (d, err e) = (d, table, err storage_error)
append_plain table (d, ok row_offset) = (d, table, ok (insert_result false 0))

store_plain : Disk → ExecutionContext → TableRuntime → Bytes → Result Row → Inserted
unfolding append_plain
store_plain d ctx table table_name (err e) = (d, table, err e)
store_plain d ctx table table_name (ok row) =
    append_plain table (append_row_to_table_with_offset d ctx.db_dir table_name row)

-- with an id column or without one
pub insert_by : Disk → ExecutionContext → TableRuntime → InsertStatement → Option ℕ → Inserted
unfolding insert_valid store_plain
insert_by d ctx table stmt none =
    store_plain d ctx table stmt.table_name (build_insert_row_existing_behavior table.schema stmt)
insert_by d ctx table stmt (some i) =
    insert_valid d ctx table i stmt (validate_insert_columns_for_auto_id table.schema i stmt)

-- Behind the loading of the table, which has an id column just when `id_column_index` is `some`.
unfoldable pub insert_into : Disk → ExecutionContext → TableRuntime → InsertStatement → Inserted
unfolding insert_by
insert_into d ctx table stmt = insert_by d ctx table stmt table.id_column_index

-- the table goes back to its place in the cache
put_table : ExecutionContext → ℕ → Inserted → Disk × ExecutionContext × Result ExecResult
put_table ctx i (d, table, r) = (d, record ctx { tables = set ctx.tables i table }, r)

insert_loaded :
    InsertStatement → ExecutionContext → Loaded → Disk × ExecutionContext × Result ExecResult
unfolding put_table
insert_loaded stmt ctx (d, err e) = (d, ctx, err e)
insert_loaded stmt ctx (d, ok (ctx', i, table)) = put_table ctx' i (insert_into d ctx' table stmt)

pub execute_insert :
    Disk → ExecutionContext → InsertStatement → Disk × ExecutionContext × Result ExecResult
unfolding insert_loaded
execute_insert d ctx stmt = insert_loaded stmt ctx (get_or_load_table_runtime d ctx stmt.table_name)

pub execute_statement :
    Disk → ExecutionContext → Statement → Disk × ExecutionContext × Result ExecResult
execute_statement d ctx (insert_stmt stmt) = execute_insert d ctx stmt
execute_statement d ctx (select_stmt stmt) = execute_select d ctx stmt
