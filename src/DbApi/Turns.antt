-- ===== src/DbApi/Turns.antt =====
-- src/db_api.c: the turns of the requests that run at once, and how they interleave.
use threaded_db_api_server.Prelude.{
  ℕ, suc, ◌-◌, ◌≡◌, true, false, not, ◌&&◌, Option, none, some, List, [], ◌∷◌, if◌then◌else◌, ◌==◌,
  get_elem?, set,
}
use threaded_db_api_server.Prelude.Bytes.{Bytes}
use threaded_db_api_server.Errors.{Result, ok, err}
use threaded_db_api_server.Disk.{Disk}
use threaded_db_api_server.Runtime.{ExecutionContext, runtime_preload_table}
use threaded_db_api_server.Executor.{
  InsertStatement, SelectStatement, Statement, insert_stmt, select_stmt, ExecResult,
}
use threaded_db_api_server.Executor.Insert.{execute_statement}
use threaded_db_api_server.DbApi.{
  DbApi, Reply, engine_reply, lock_error, Prepared, rejected, prepared, prepare_sql,
}

-- Where a request stands: with its text; before its first lock; under the write lock that preloads a
-- table; before its read lock; under the read lock; under the write lock of an INSERT; answered.
pub data Phase : Type 0 where
  arrived : Bytes → Phase
  waiting : Statement → Phase
  preloading : SelectStatement → Phase
  preloaded : SelectStatement → Phase
  reading : SelectStatement → Phase
  inserting : InsertStatement → Phase
  replied : Reply → Phase

abbrev pub write_lock : DbApi → DbApi
write_lock api = record api { db_rwlock = record api.db_rwlock { writing = true } }

abbrev pub read_lock : DbApi → DbApi
read_lock api = record api {
  db_rwlock = record api.db_rwlock { readers = suc api.db_rwlock.readers };
}

abbrev pub write_unlock : DbApi → DbApi
write_unlock api = record api { db_rwlock = record api.db_rwlock { writing = false } }

abbrev pub read_unlock : DbApi → DbApi
read_unlock api = record api {
  db_rwlock = record api.db_rwlock { readers = api.db_rwlock.readers - 1 };
}

-- What a request does next, where it need not wait, and the phase behind it.
abbrev pub Turn : Type 0
Turn = DbApi × Phase

abbrev pub after_prepare : DbApi → Prepared → Turn
after_prepare api (rejected reply) = (api, replied reply)
after_prepare api (prepared stmt) = (api, waiting stmt)

abbrev pub lock_phase : Statement → Phase
lock_phase (insert_stmt stmt) = inserting stmt
lock_phase (select_stmt stmt) = preloading stmt

abbrev pub after_preload :
    DbApi → SelectStatement → Disk × ExecutionContext × Result (Unit {0}) → Turn
after_preload api stmt (disk, ctx, ok u) =
    (write_unlock (record api { disk = disk; ctx = ctx }), preloaded stmt)
after_preload api stmt (disk, ctx, err e) =
    (write_unlock (record api { disk = disk; ctx = ctx }), replied (engine_reply (err e)))

-- The reply of a statement, whose lock is let go by `unlock`.
abbrev pub after_execute :
    (DbApi → DbApi) → DbApi → Disk × ExecutionContext × Result ExecResult → Turn
after_execute unlock api (disk, ctx, result) =
    (unlock (record api { disk = disk; ctx = ctx }), replied (engine_reply result))

unfoldable pub take_turn : DbApi → Phase → Option Turn
take_turn api (arrived sql) = some (after_prepare api (prepare_sql sql))
take_turn api (waiting stmt) =
    if not api.db_rwlock.writing && api.db_rwlock.readers == 0
    then some (write_lock api, lock_phase stmt)
    else none
take_turn api (preloading stmt) =
    some (after_preload api stmt (runtime_preload_table api.disk api.ctx stmt.table_name))
take_turn api (preloaded stmt) =
    if not api.db_rwlock.writing then some (read_lock api, reading stmt) else none
take_turn api (reading stmt) =
    some (after_execute read_unlock api (execute_statement api.disk api.ctx (select_stmt stmt)))
take_turn api (inserting stmt) =
    some (after_execute write_unlock api (execute_statement api.disk api.ctx (insert_stmt stmt)))
take_turn api (replied reply) = none

-- Where the lock cannot be taken, the request is answered by `make_lock_error`.
pub data IsLocking : Phase → Type 0 where
  locks_first : {stmt : Statement} → IsLocking (waiting stmt)
  locks_again : {stmt : SelectStatement} → IsLocking (preloaded stmt)

pub record System : Type 0 where
  pub api : DbApi
  pub requests : List Phase

pub data Step : System → System → Type 0 where
  arrives : {s : System} (sql : Bytes) → Step s (record s { requests = arrived sql ∷ s.requests })
  turns :
      {s : System} {p p' : Phase} {api' : DbApi} (i : ℕ)
      → get_elem? s.requests i ≡ some p
      → take_turn s.api p ≡ some (api', p')
      → Step s (record { api = api'; requests = set s.requests i p' })
  lock_fails :
      {s : System} {p : Phase} (i : ℕ)
      → get_elem? s.requests i ≡ some p
      → IsLocking p
      → Step s (record s { requests = set s.requests i (replied lock_error) })

abbrev pub initial : DbApi → System
initial api = record { api = api; requests = [] }

pub data Reach (start : DbApi) : System → Type 0 where
  here : Reach start (initial start)
  next : {s s' : System} → Reach start s → Step s s' → Reach start s'
