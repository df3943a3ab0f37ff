-- ===== src/Executor/Insert/Cached.antt =====
-- src/executor.c: INSERT and `execute_statement` on the cache of src/runtime.c.
use threaded_db_api_server.Prelude.{
  ℕ, ◌≡◌, refl, Bool, true, false, Option, none, some, if◌then◌else◌, ◌==◌,
}
use threaded_db_api_server.Prelude.Bytes.{Bytes}
use threaded_db_api_server.Errors.{Result, ok, err}
use threaded_db_api_server.Disk.{Disk}
use threaded_db_api_server.BpTree.{BpTree}
use threaded_db_api_server.Storage.Fields.{Row}
use threaded_db_api_server.Runtime.{
  TableRuntime, ExecutionContext, Loaded, get_or_load_table_runtime,
}
use threaded_db_api_server.Runtime.Present.{
  HasTable, IsAt, HasTable-set, LoadsIf, get_or_load-LoadsIf,
}
use threaded_db_api_server.Executor.{
  InsertStatement, SelectStatement, Statement, insert_stmt, select_stmt,
}
use threaded_db_api_server.Executor.Select.{select_from}
use threaded_db_api_server.Executor.Select.Cached.{
  Keeps, execute_select-HasTable, execute_select-Keeps,
}
use threaded_db_api_server.Executor.Insert.{
  Inserted, index_row, append_indexed, store_generated, insert_valid, append_plain, store_plain,
  insert_by, insert_into, put_table, insert_loaded, execute_insert, execute_statement,
}

-- An INSERT does not rename the table.
abbrev Named : TableRuntime → Inserted → Type 0
Named table inserted = inserted.1.table_name ≡ table.table_name

index_row-Named :
    (d : Disk) (table : TableRuntime) (id : ℕ) (o : Option BpTree)
    → Named table (index_row d table id o)
unfolding index_row
index_row-Named d table id none = refl
index_row-Named d table id (some tree) = refl

append_indexed-Named :
    (table : TableRuntime) (id : ℕ) (p : Disk × Result ℕ) → Named table (append_indexed table id p)
unfolding append_indexed
append_indexed-Named table id (d, err e) = refl
append_indexed-Named table id (d, ok offset) = index_row-Named d table id _

store_generated-Named :
    (d : Disk) (ctx : ExecutionContext) (table : TableRuntime) (name : Bytes) (r : Result Row)
    → Named table (store_generated d ctx table name r)
unfolding store_generated
store_generated-Named d ctx table name (err e) = refl
store_generated-Named d ctx table name (ok row) = append_indexed-Named table table.next_id _

if-Named :
    (table : TableRuntime) (b : Bool) (x y : Inserted)
    → Named table x
    → Named table y
    → Named table (if◌then◌else◌ {A = Inserted} b x y)
if-Named table true x y hx hy = hx
if-Named table false x y hx hy = hy

insert_valid-Named :
    (d : Disk) (ctx : ExecutionContext) (table : TableRuntime) (i : ℕ) (stmt : InsertStatement)
    (r : Result (Unit {0}))
    → Named table (insert_valid d ctx table i stmt r)
unfolding insert_valid
insert_valid-Named d ctx table i stmt (err e) = refl
insert_valid-Named d ctx table i stmt (ok u) =
    if-Named table (table.next_id == 0) _ _ refl
      (store_generated-Named d ctx table stmt.table_name _)

append_plain-Named :
    (table : TableRuntime) (p : Disk × Result ℕ) → Named table (append_plain table p)
unfolding append_plain
append_plain-Named table (d, err e) = refl
append_plain-Named table (d, ok offset) = refl

store_plain-Named :
    (d : Disk) (ctx : ExecutionContext) (table : TableRuntime) (name : Bytes) (r : Result Row)
    → Named table (store_plain d ctx table name r)
unfolding store_plain
store_plain-Named d ctx table name (err e) = refl
store_plain-Named d ctx table name (ok row) = append_plain-Named table _

insert_by-Named :
    (d : Disk) (ctx : ExecutionContext) (table : TableRuntime) (stmt : InsertStatement)
    (o : Option ℕ)
    → Named table (insert_by d ctx table stmt o)
unfolding insert_by
insert_by-Named d ctx table stmt none = store_plain-Named d ctx table stmt.table_name _
insert_by-Named d ctx table stmt (some i) = insert_valid-Named d ctx table i stmt _

insert_into-Named :
    (d : Disk) (ctx : ExecutionContext) (table : TableRuntime) (stmt : InsertStatement)
    → Named table (insert_into d ctx table stmt)
unfolding insert_into
insert_into-Named d ctx table stmt = insert_by-Named d ctx table stmt table.id_column_index

execute_insert-Keeps :
    (d : Disk) (ctx : ExecutionContext) (stmt : InsertStatement)
    → Keeps ctx (execute_insert d ctx stmt)
unfolding execute_insert insert_loaded put_table
execute_insert-Keeps d ctx stmt =
    go (get_or_load_table_runtime d ctx stmt.table_name) (get_or_load-LoadsIf d ctx stmt.table_name)
  where
    go : (l : Loaded) → LoadsIf stmt.table_name ctx l → Keeps ctx (insert_loaded stmt ctx l)
    go (d', err e) l = λ name h. h
    go (d', ok (ctx', i, table)) l = λ name h.
        HasTable-set name ctx'.tables i table _ l.placed (insert_into-Named d' ctx' table stmt)
          (l.kept name h)

pub execute_statement-Keeps :
    (d : Disk) (ctx : ExecutionContext) (stmt : Statement)
    → Keeps ctx (execute_statement d ctx stmt)
unfolding execute_statement
execute_statement-Keeps d ctx (insert_stmt stmt) = execute_insert-Keeps d ctx stmt
execute_statement-Keeps d ctx (select_stmt stmt) = execute_select-Keeps d ctx stmt

pub execute_statement-HasTable :
    (d : Disk) (ctx : ExecutionContext) (stmt : SelectStatement)
    → HasTable stmt.table_name ctx.tables
    → (t : TableRuntime) × IsAt ctx.tables stmt.table_name t
      × (execute_statement d ctx (select_stmt stmt) ≡ (d, ctx, select_from d ctx t stmt))
unfolding execute_statement
execute_statement-HasTable = execute_select-HasTable
