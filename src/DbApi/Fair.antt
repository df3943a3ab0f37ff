-- ===== src/DbApi/Fair.antt =====
-- One turn of a request of src/db_api.c, and what it keeps.
use threaded_db_api_server.Prelude.{
  ℕ, ◌+◌, ◌≤◌, ◌≡◌, refl, Bool, true, false, not, ◌&&◌, Option, none, some, if◌then◌else◌, ◌==◌,
  arith, ==_iff,
}
use threaded_db_api_server.Prelude.Bytes.{Bytes}
use threaded_db_api_server.Errors.{Result, ok, err}
use threaded_db_api_server.Disk.{Disk}
use threaded_db_api_server.Runtime.{ExecutionContext}
use threaded_db_api_server.Runtime.Present.{HasTable, Preloads, runtime_preload_table-Preloads}
use threaded_db_api_server.Executor.{Statement, insert_stmt, select_stmt, SelectStatement}
use threaded_db_api_server.Executor.Insert.Cached.{execute_statement-Keeps}
use threaded_db_api_server.DbApi.{DbApi, Prepared, rejected, prepared, prepare_sql}
use threaded_db_api_server.DbApi.Turns.{
  Phase, arrived, waiting, preloading, preloaded, reading, inserting, replied, Turn, after_prepare,
  after_preload, lock_phase, write_lock, take_turn,
}
use threaded_db_api_server.DbApi.Counts.{bit, writes, reads, IsServed}

-- What a turn of a phase keeps of the counts, and of the cache.
pub record IsFair (api : DbApi) (p : Phase) (t : Turn) : Type 0 where
  pub wrote : bit t.0.db_rwlock.writing + writes p ≡ bit api.db_rwlock.writing + writes t.1
  pub read : t.0.db_rwlock.readers + reads p ≡ api.db_rwlock.readers + reads t.1
  pub alone : t.0.db_rwlock.writing ≡ true → t.0.db_rwlock.readers ≡ 0
  pub kept : (name : Bytes) → HasTable name api.ctx.tables → HasTable name t.0.ctx.tables
  pub serves : IsServed t.0.ctx t.1

abbrev pub IfSome : (Turn → Type 0) → Option Turn → Type 0
IfSome P none = Unit
IfSome P (some t) = P t

IfSome-if :
    (P : Turn → Type 0) (b : Bool) (t : Turn)
    → (b ≡ true → P t)
    → IfSome P (if b then some t else none)
IfSome-if P true t h = h refl
IfSome-if P false t h = tt

-- Who holds the lock for writing is alone with it, who reads is counted, and is served.
pub record IsHolding (api : DbApi) (p : Phase) : Type 0 where
  pub writer : writes p ≤ bit api.db_rwlock.writing
  pub reader : reads p ≤ api.db_rwlock.readers
  pub exclusive : api.db_rwlock.writing ≡ true → api.db_rwlock.readers ≡ 0
  pub served : IsServed api.ctx p

prepare-IsFair :
    (api : DbApi) (sql : Bytes) (p : Prepared)
    → IsHolding api (arrived sql)
    → IsFair api (arrived sql) (after_prepare api p)
prepare-IsFair api sql (rejected reply) h = record {
  wrote = refl;
  read = refl;
  alone = h.exclusive;
  kept = λ name t. t;
  serves = tt;
}
prepare-IsFair api sql (prepared stmt) h = record {
  wrote = refl;
  read = refl;
  alone = h.exclusive;
  kept = λ name t. t;
  serves = tt;
}

bit_lem : (b : Bool) → 1 ≤ bit b → bit b ≡ 1
bit_lem true h = refl
bit_lem false h = absurd (omega arith)

free_lem : (b : Bool) (n : ℕ) → (not b && n == 0) ≡ true → (bit b ≡ 0) × (n ≡ 0)
free_lem true n h = absurd (cc h)
free_lem false n h = (refl, (==_iff n 0).0 h)

lock-IsFair :
    (api : DbApi) (stmt : Statement)
    → (not api.db_rwlock.writing && api.db_rwlock.readers == 0) ≡ true
    → IsFair api (waiting stmt) (write_lock api, lock_phase stmt)
lock-IsFair api (insert_stmt stmt) e =
    let (quiet, unread) = free_lem api.db_rwlock.writing api.db_rwlock.readers e in
    record {
      wrote = omega (arith, quiet);
      read = refl;
      alone = λ _. unread;
      kept = λ name t. t;
      serves = tt;
    }
lock-IsFair api (select_stmt stmt) e =
    let (quiet, unread) = free_lem api.db_rwlock.writing api.db_rwlock.readers e in
    record {
      wrote = omega (arith, quiet);
      read = refl;
      alone = λ _. unread;
      kept = λ name t. t;
      serves = tt;
    }

preload-IsFair :
    (api : DbApi) (stmt : SelectStatement) (r : Disk × ExecutionContext × Result (Unit {0}))
    → IsHolding api (preloading stmt)
    → Preloads stmt.table_name api.ctx r
    → IsFair api (preloading stmt) (after_preload api stmt r)
preload-IsFair api stmt (disk, ctx, ok u) h (kept, found) = record {
  wrote = omega (arith, bit_lem api.db_rwlock.writing h.writer);
  read = refl;
  alone = λ e. absurd (cc e);
  kept = kept;
  serves = found refl;
}
preload-IsFair api stmt (disk, ctx, err e) h (kept, found) = record {
  wrote = omega (arith, bit_lem api.db_rwlock.writing h.writer);
  read = refl;
  alone = λ e. absurd (cc e);
  kept = kept;
  serves = tt;
}

pub turn-IsFair :
    (api : DbApi) (p : Phase) → IsHolding api p → IfSome (IsFair api p) (take_turn api p)
unfolding take_turn
turn-IsFair api (arrived sql) h = prepare-IsFair api sql (prepare_sql sql) h
turn-IsFair api (waiting stmt) h =
    IfSome-if _ (not api.db_rwlock.writing && api.db_rwlock.readers == 0) _ (lock-IsFair api stmt)
turn-IsFair api (preloading stmt) h =
    preload-IsFair api stmt _ h (runtime_preload_table-Preloads api.disk api.ctx stmt.table_name)
turn-IsFair api (preloaded stmt) h = IfSome-if _ (not api.db_rwlock.writing) _ λ e. record {
  wrote = refl;
  read = omega arith;
  alone = λ w. absurd (cc (e, w));
  kept = λ name t. t;
  serves = h.served;
}
turn-IsFair api (reading stmt) h = record {
  wrote = refl;
  read = omega (arith, h.reader);
  alone = λ w. omega (arith, h.exclusive w);
  kept = execute_statement-Keeps api.disk api.ctx (select_stmt stmt);
  serves = tt;
}
turn-IsFair api (inserting stmt) h = record {
  wrote = omega (arith, bit_lem api.db_rwlock.writing h.writer);
  read = refl;
  alone = λ e. absurd (cc e);
  kept = execute_statement-Keeps api.disk api.ctx (insert_stmt stmt);
  serves = tt;
}
turn-IsFair api (replied reply) h = tt
