-- ===== src/Server/Run.antt =====
-- src/server.c, include/server.h: starting the server, and its accept loop beside the workers.
--
-- The calls on the listening socket succeed or fail as parameters say. An accepted client is the
-- number of its socket. The loop and the workers take turns in any order.
pub mod Clients
pub mod Shutdown
use threaded_db_api_server.Prelude.{
  ℕ, ◌<◌, ◌≡◌, refl, sym, ap, ◌∙◌, Bool, true, false, not, ◌&&◌, ◌||◌, Option, none, some, List, [],
  ◌∷◌, ◌++◌, append-nil, ltb, ◌==◌, if◌then◌else◌, All, All-append,
}
use threaded_db_api_server.Prelude.Bytes.{Bytes, codes}
use threaded_db_api_server.Disk.{Disk}
use threaded_db_api_server.DbApi.{DbApi, db_api_init, db_api_destroy}
use threaded_db_api_server.TaskQueue.{
  Task, Pushed, accepted, full, closed, waiting, task_queue_try_push,
}
use threaded_db_api_server.TaskQueue.Fifo.{contents}
use threaded_db_api_server.ThreadPool
use threaded_db_api_server.ThreadPool.{
  ThreadPool, thread_pool_init, thread_pool_try_submit, System, submit_step, log_submit, initial,
  no_pool,
}
use threaded_db_api_server.ThreadPool.Drain.{submitted-taken}

pub record ServerConfig : Type 0 where
  pub db_dir : Bytes
  pub port : ℕ
  pub thread_count : ℕ
  pub queue_capacity : ℕ

-- Whether `socket`, `setsockopt`, `bind` and `listen` succeed, and each `pthread_create`.
pub record Calls : Type 0 where
  pub makes_socket : Bool
  pub sets_option : Bool
  pub binds : Bool
  pub listens : Bool
  pub creates : ℕ → Bool

-- What the loop does with a client: it stands in the queue, or is answered and closed.
pub data Answer : Type 0 where
  queued : Answer
  refused : ℕ → Bytes → Answer

-- `Server`, with the workers of its pool, what the loop did with each client, and whether it runs.
pub record Server : Type 0 where
  pub config : ServerConfig
  pub db_api : DbApi
  pub system : System
  pub log : List (Task × Answer)
  pub running : Bool

-- A port that is 0 stands for one that is not positive.
unfoldable pub is_valid_config : ServerConfig → Bool
is_valid_config config =
    not (config.thread_count == 0)
    && not (config.queue_capacity == 0)
    && not (config.port == 0)
    && not (ltb 65535 config.port)

start : ServerConfig → DbApi → Option ThreadPool → Option Server
start config db_api none = none
start config db_api (some pool) =
    some
      (record { config = config; db_api = db_api; system = initial pool; log = []; running = true })

-- Where a call fails, what was made before it is destroyed.
unfoldable pub server_init : Calls → Disk → ServerConfig → Option Server
unfolding start is_valid_config
server_init calls disk config =
    if is_valid_config config
      && calls.makes_socket
      && calls.sets_option
      && calls.binds
      && calls.listens
    then start config (db_api_init disk config.db_dir)
        (thread_pool_init calls.creates config.thread_count config.queue_capacity)
    else none

-- The result of `thread_pool_try_submit`
pub answer : Pushed → Answer
answer accepted = queued
answer full = refused 503 (codes "QUEUE_FULL")
answer closed = refused 500 (codes "INTERNAL_ERROR")
answer waiting = refused 500 (codes "INTERNAL_ERROR")

pub goes_on : Answer → Bool
goes_on queued = true
goes_on (refused status code) = status == 503

-- `accept` returns a client, is interrupted, or fails.
pub data Accepted : Type 0 where
  client : Task → Accepted
  eintr error : Accepted

-- One turn of the loop of `server_run`.
unfoldable pub server_turn : Server → Accepted → Server
unfolding answer goes_on
server_turn server eintr = server
server_turn server error = record server { running = false }
server_turn server (client fd) =
    let done = answer (thread_pool_try_submit server.system.pool fd).1 in
    record server {
      system = submit_step server.system fd;
      log = server.log ++ ((fd, done) ∷ []);
      running = goes_on done;
    }

-- A step of the workers, or a shutdown: one of the pool that submits nothing.
pub data Step (v : Server) : Server → Type 0 where
  works :
      {t : System}
      → ThreadPool.Step v.system t
      → t.submitted ≡ v.system.submitted
      → Step v (record v { system = t })
  accepts : (a : Accepted) → v.running ≡ true → Step v (server_turn v a)

pub data Reach (v : Server) : Server → Type 0 where
  here : Reach v v
  next : {t u : Server} → Reach v t → Step t u → Reach v u

-- A call of `server_destroy`: the listening socket is closed, the threads are joined, and then the
-- database is given up.
pub data Destroys (v : Server) : Server → Type 0 where
  destroys :
      {t : System}
      → ThreadPool.Destroys v.system t no_pool
      → Destroys v (record v {
        db_api = db_api_destroy v.db_api;
        system = record t { pool = no_pool };
        running = false;
      })

-- The clients that were queued, in order.
unfoldable pub queued_of : List (Task × Answer) → List Task
queued_of [] = []
queued_of ((fd, queued) ∷ log) = fd ∷ queued_of log
queued_of ((fd, refused status code) ∷ log) = queued_of log

-- The clients that were not queued were told that the queue is full.
abbrev pub IsServed : Task × Answer → Type 0
IsServed (fd, queued) = Unit
IsServed (fd, refused status code) = (status ≡ 503) × (code ≡ codes "QUEUE_FULL")
