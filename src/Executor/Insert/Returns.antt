-- ===== src/Executor/Insert/Returns.antt =====
-- src/executor.c: INSERT, and so any statement, returns.
use threaded_db_api_server.Prelude.{
  ℕ, Bool, true, false, not, ◌==◌, Option, none, some, List, [], ◌∷◌, length, set, get_or,
  replicate, Option-cases, inl, inr, if◌then◌else◌,
}
use threaded_db_api_server.Prelude.Bytes.{Bytes}
use threaded_db_api_server.Errors.{exec_error, Result, ok, err}
use threaded_db_api_server.Errors.Outcome.{Returns, refuses, delivers, Returns-one, Ensures-if}
use threaded_db_api_server.Disk.{Disk}
use threaded_db_api_server.BpTree.{BpTree}
use threaded_db_api_server.Schema.{TableSchema, schema_find_column_index}
use threaded_db_api_server.Storage.Fields.{Row}
use threaded_db_api_server.Runtime.{
  TableRuntime, ExecutionContext, Loaded, get_or_load_table_runtime,
}
use threaded_db_api_server.Runtime.Returns.{get_or_load-Returns}
use threaded_db_api_server.Executor.{
  LiteralValue, InsertStatement, Statement, insert_stmt, select_stmt,
}
use threaded_db_api_server.Executor.Insert.{
  Inserted, fill_columns, build_insert_row_existing_behavior, index_row, append_indexed,
  store_generated, insert_valid, append_plain, store_plain, insert_by, insert_into, put_table,
  insert_loaded, execute_insert, execute_statement,
}
use threaded_db_api_server.Executor.Select.Returns.{execute_select-Returns}
use threaded_db_api_server.Executor.Insert.Faults.{validate-err, build-err}

fill_columns-Returns :
    (schema : TableSchema) (cs : List Bytes) (vs : List LiteralValue) (row : Row) (seen : List Bool)
    → Returns (fill_columns schema cs vs row seen)
unfolding fill_columns
fill_columns-Returns schema [] vs row seen = delivers tt
fill_columns-Returns schema (c ∷ cs) [] row seen = delivers tt
fill_columns-Returns schema (c ∷ cs) (v ∷ vs) row seen =
    elim (Option-cases (schema_find_column_index schema c)) [
      | inl f ↦ rw (f, fill_columns) (refuses tt)
      | inr (i, f) ↦
          rw (f, fill_columns)
            (Ensures-if (get_or seen i false) (λ _. refuses tt)
              (λ _. fill_columns-Returns schema cs vs (set row i v.text) (set seen i true)))
    ]

build_existing-Returns :
    (schema : TableSchema) (stmt : InsertStatement)
    → Returns (build_insert_row_existing_behavior schema stmt)
unfolding build_insert_row_existing_behavior
build_existing-Returns schema stmt =
    let count = length schema.columns in
    Ensures-if (length stmt.columns == 0)
      (λ _. Ensures-if (not (length stmt.values == count)) (λ _. refuses tt) (λ _. delivers tt))
      (λ _.
        Ensures-if (not (length stmt.columns == length stmt.values)) (λ _. refuses tt)
          (λ _.
            fill_columns-Returns schema stmt.columns stmt.values (replicate count [])
              (replicate count false)))

index_row-Returns :
    (d : Disk) (table : TableRuntime) (id : ℕ) (o : Option BpTree)
    → Returns (index_row d table id o).2
unfolding index_row
index_row-Returns d table id none = refuses tt
index_row-Returns d table id (some tree) = delivers tt

append_indexed-Returns :
    (table : TableRuntime) (id : ℕ) (p : Disk × Result ℕ) → Returns (append_indexed table id p).2
unfolding append_indexed
append_indexed-Returns table id (d, err e) = refuses tt
append_indexed-Returns table id (d, ok offset) = index_row-Returns d table id _

store_generated-Returns :
    (d : Disk) (ctx : ExecutionContext) (table : TableRuntime) (name : Bytes) (r : Result Row)
    → Returns r
    → Returns (store_generated d ctx table name r).2
unfolding store_generated
store_generated-Returns d ctx table name (err e) (refuses h) = refuses h
store_generated-Returns d ctx table name (ok row) h = append_indexed-Returns table table.next_id _

if-Returns :
    (b : Bool) (x y : Inserted)
    → Returns x.2
    → Returns y.2
    → Returns (if◌then◌else◌ {A = Inserted} b x y).2
if-Returns true x y h k = h
if-Returns false x y h k = k

insert_valid-Returns :
    (d : Disk) (ctx : ExecutionContext) (table : TableRuntime) (i : ℕ) (stmt : InsertStatement)
    (r : Result (Unit {0}))
    → Returns r
    → Returns (insert_valid d ctx table i stmt r).2
unfolding insert_valid
insert_valid-Returns d ctx table i stmt (err e) (refuses h) = refuses h
insert_valid-Returns d ctx table i stmt (ok u) h =
    if-Returns (table.next_id == 0) _ _ (refuses tt) (
      store_generated-Returns d ctx table stmt.table_name _
        (Returns-one exec_error _ tt (λ e. build-err table.schema i stmt table.next_id)))

store_plain-Returns :
    (d : Disk) (ctx : ExecutionContext) (table : TableRuntime) (name : Bytes) (r : Result Row)
    → Returns r
    → Returns (store_plain d ctx table name r).2
unfolding store_plain
store_plain-Returns d ctx table name (err e) (refuses h) = refuses h
store_plain-Returns d ctx table name (ok row) h = appended _
  where
    appended : (p : Disk × Result ℕ) → Returns (append_plain table p).2
    appended (d', err e) = refuses tt
    appended (d', ok offset) = delivers tt

insert_by-Returns :
    (d : Disk) (ctx : ExecutionContext) (table : TableRuntime) (stmt : InsertStatement)
    (o : Option ℕ)
    → Returns (insert_by d ctx table stmt o).2
unfolding insert_by
insert_by-Returns d ctx table stmt none =
    store_plain-Returns d ctx table stmt.table_name _ (build_existing-Returns table.schema stmt)
insert_by-Returns d ctx table stmt (some i) =
    insert_valid-Returns d ctx table i stmt _
      (Returns-one exec_error _ tt (λ e. validate-err table.schema i stmt))

execute_insert-Returns :
    (d : Disk) (ctx : ExecutionContext) (stmt : InsertStatement)
    → Returns (execute_insert d ctx stmt).2
unfolding execute_insert insert_loaded put_table insert_into
execute_insert-Returns d ctx stmt =
    go (get_or_load_table_runtime d ctx stmt.table_name) (get_or_load-Returns d ctx stmt.table_name)
  where
    go : (l : Loaded) → Returns l.1 → Returns (insert_loaded stmt ctx l).2
    go (d', err e) (refuses h) = refuses h
    go (d', ok (ctx', i, table)) h = insert_by-Returns d' ctx' table stmt table.id_column_index

-- A statement that is executed returns: the loops over schema and data files end.
pub execute_statement-Returns :
    (d : Disk) (ctx : ExecutionContext) (stmt : Statement)
    → Returns (execute_statement d ctx stmt).2
unfolding execute_statement
execute_statement-Returns d ctx (insert_stmt stmt) = execute_insert-Returns d ctx stmt
execute_statement-Returns d ctx (select_stmt stmt) = execute_select-Returns d ctx stmt
