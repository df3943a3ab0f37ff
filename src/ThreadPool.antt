-- ===== src/ThreadPool.antt =====
-- src/thread_pool.c, include/thread_pool.h: the worker threads over one task queue.
--
-- A step is one critical section of one thread, so every interleaving is a sequence of steps. The
-- handler is any function that returns; its end is a step of its own. Wake-ups may be spurious.
pub mod Running
pub mod Drain
pub mod Join
use threaded_db_api_server.Prelude.{
  ℕ, zero, suc, ◌+◌, ◌<◌, ◌≡◌, Bool, true, false, not, ◌||◌, Option, none, some, List, [], ◌∷◌,
  ◌++◌, ◌==◌, if◌then◌else◌,
}
use threaded_db_api_server.TaskQueue.{
  Task, TaskQueue, task_queue_init, Pushed, accepted, closed, task_queue_try_push, Popped, task,
  drained, asleep, task_queue_pop, task_queue_shutdown,
}

-- `ThreadPool`, but for the handles, the handler and its context
pub record ThreadPool : Type 0 where
  pub thread_count : ℕ
  pub created_count : ℕ
  pub queue : TaskQueue
  pub started : Bool

-- The loop over `pthread_create` from the index `i` on, `n` rounds: `creates i` is whether the
-- thread `i` comes to be. Where one does not, the others are joined and nothing is left.
create_threads : (ℕ → Bool) → ℕ → ℕ → Bool
create_threads creates i zero = true
create_threads creates i (suc n) =
    let rest = create_threads creates (i + 1) n in if creates i then rest else false

start_threads : (ℕ → Bool) → ℕ → Option TaskQueue → Option ThreadPool
unfolding create_threads
start_threads creates thread_count none = none
start_threads creates thread_count (some queue) =
    if create_threads creates 0 thread_count
    then some (record {
      thread_count = thread_count;
      created_count = thread_count;
      queue = queue;
      started = true;
    })
    else none

unfoldable pub thread_pool_init : (ℕ → Bool) → ℕ → ℕ → Option ThreadPool
unfolding start_threads
thread_pool_init creates thread_count queue_capacity =
    if thread_count == 0 || queue_capacity == 0
    then none
    else start_threads creates thread_count (task_queue_init queue_capacity)

unfoldable pub thread_pool_try_submit : ThreadPool → Task → ThreadPool × Pushed
thread_pool_try_submit pool t =
    if not pool.started
    then (pool, closed)
    else (let (q, r) = task_queue_try_push pool.queue t in (record pool { queue = q }, r))

unfoldable pub thread_pool_shutdown : ThreadPool → ThreadPool
thread_pool_shutdown pool =
    if not pool.started then pool else record pool { queue = task_queue_shutdown pool.queue }

-- Where a worker stands in the loop of `thread_pool_worker_main`.
pub data Worker : Type 0 where
  popping exited : Worker
  handling : Task → Worker

-- what a worker does with the result of `task_queue_pop`
pub after_pop : Popped → Worker
after_pop (task t) = handling t
after_pop drained = exited
after_pop asleep = popping

-- The pool with its workers, and what has happened: the tasks that were accepted and those that a
-- worker took, each in their order.
pub record System : Type 0 where
  pub pool : ThreadPool
  pub worker : ℕ → Worker
  pub submitted : List Task
  pub taken : List Task

abbrev pub set_worker : (ℕ → Worker) → ℕ → Worker → ℕ → Worker
set_worker w i v j = if i == j then v else w j

abbrev pub log_submit : Pushed → Task → List Task → List Task
log_submit accepted t ts = ts ++ (t ∷ [])
log_submit _ t ts = ts

abbrev pub log_pop : Popped → List Task → List Task
log_pop (task t) ts = ts ++ (t ∷ [])
log_pop _ ts = ts

-- the accept loop submits a task
unfoldable pub submit_step : System → Task → System
unfolding thread_pool_try_submit
submit_step s t =
    let (pool, r) = thread_pool_try_submit s.pool t in
    record s { pool = pool; submitted = log_submit r t s.submitted }

-- worker `i` calls `task_queue_pop`
unfoldable pub pop_step : System → ℕ → System
unfolding after_pop
pop_step s i =
    let (q, r) = task_queue_pop s.pool.queue in
    record s {
      pool = record s.pool { queue = q };
      worker = set_worker s.worker i (after_pop r);
      taken = log_pop r s.taken;
    }

pub data Step (s : System) : System → Type 0 where
  submits : (t : Task) → Step s (submit_step s t)
  pops : (i : ℕ) → i < s.pool.thread_count → s.worker i ≡ popping → Step s (pop_step s i)
  handles :
      (i : ℕ) (t : Task)
      → s.worker i ≡ handling t
      → Step s (record s { worker = set_worker s.worker i popping })
  shuts : Step s (record s { pool = thread_pool_shutdown s.pool })

-- the pool as `thread_pool_init` leaves it
abbrev pub initial : ThreadPool → System
initial pool = record { pool = pool; worker = λ i. popping; submitted = []; taken = [] }

pub data Reach (s : System) : System → Type 0 where
  here : Reach s s
  next : {t u : System} → Reach s t → Step t u → Reach s u

-- `memset`
abbrev pub no_pool : ThreadPool
no_pool = record {
  thread_count = 0;
  created_count = 0;
  queue = record { items = []; capacity = 0; head = 0; tail = 0; count = 0; shutdown = false };
  started = false;
}

-- the queue is shut, also of a pool that is not started
unfoldable pub shut_queue : System → System
shut_queue s = record s { pool = record s.pool { queue = task_queue_shutdown s.pool.queue } }

-- A call of `thread_pool_destroy` in one state returns in another, in which every thread that was
-- created has left its loop and was joined, and leaves what is given of the pool.
pub data Destroys (s : System) : System → ThreadPool → Type 0 where
  joins :
      {u : System}
      → Reach (shut_queue s) u
      → ((i : ℕ) → i < s.pool.created_count → u.worker i ≡ exited)
      → Destroys s u no_pool
