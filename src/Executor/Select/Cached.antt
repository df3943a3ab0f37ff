-- ===== src/Executor/Select/Cached.antt =====
-- src/executor.c: SELECT on the cache of src/runtime.c.
use threaded_db_api_server.Prelude.{◌≡◌}
use threaded_db_api_server.Prelude.Bytes.{Bytes}
use threaded_db_api_server.Errors.{Result, ok, err}
use threaded_db_api_server.Disk.{Disk}
use threaded_db_api_server.Runtime.{
  TableRuntime, ExecutionContext, Loaded, get_or_load_table_runtime,
}
use threaded_db_api_server.Runtime.Present.{
  HasTable, IsAt, LoadsIf, get_or_load-LoadsIf, get_or_load-HasTable,
}
use threaded_db_api_server.Executor.{SelectStatement, ExecResult}
use threaded_db_api_server.Executor.Select.{select_from, select_loaded, execute_select}

pub execute_select-HasTable :
    (d : Disk) (ctx : ExecutionContext) (stmt : SelectStatement)
    → HasTable stmt.table_name ctx.tables
    → (t : TableRuntime) × IsAt ctx.tables stmt.table_name t
      × (execute_select d ctx stmt ≡ (d, ctx, select_from d ctx t stmt))
unfolding execute_select select_loaded
execute_select-HasTable d ctx stmt h =
    let (i, t, at, e) = get_or_load-HasTable d ctx stmt.table_name h in (t, at, rw e)

-- The tables of the cache stay.
abbrev pub Keeps : ExecutionContext → Disk × ExecutionContext × Result ExecResult → Type 0
Keeps ctx (d', ctx', r) = (name : Bytes) → HasTable name ctx.tables → HasTable name ctx'.tables

pub execute_select-Keeps :
    (d : Disk) (ctx : ExecutionContext) (stmt : SelectStatement)
    → Keeps ctx (execute_select d ctx stmt)
unfolding execute_select select_loaded
execute_select-Keeps d ctx stmt =
    go (get_or_load_table_runtime d ctx stmt.table_name) (get_or_load-LoadsIf d ctx stmt.table_name)
  where
    go : (l : Loaded) → LoadsIf stmt.table_name ctx l → Keeps ctx (select_loaded stmt ctx l)
    go (d', err e) l = λ name h. h
    go (d', ok (ctx', i, table)) l = l.kept
