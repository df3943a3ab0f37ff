-- ===== src/TaskQueue.antt =====
-- src/task_queue.c, include/task_queue.h: the bounded ring buffer of accepted connections.
--
-- Each function is what it does while it holds the mutex; the locks, signals and waits succeed. A
-- loop around `pthread_cond_wait` is one look at its condition, with `waiting` as its result where
-- the thread goes to sleep: it looks again, at another queue, when it is woken.
pub mod Fifo
pub mod Refine
use threaded_db_api_server.Prelude.{
  ℕ, ◌+◌, ◌-◌, ◌%◌, ◌^◌, Bool, true, false, not, ◌&&◌, ◌||◌, Option, none, some, List, [], ltb,
  ◌==◌, if◌then◌else◌, get_or, set, replicate, length,
}

-- `Task`: the `client_fd`
abbrev pub Task : Type 0
Task = ℕ

pub record TaskQueue : Type 0 where
  pub items : List Task
  pub capacity : ℕ
  pub head : ℕ
  pub tail : ℕ
  pub count : ℕ
  pub shutdown : Bool

-- `size_t` addition
abbrev pub add_size : ℕ → ℕ → ℕ
add_size a b = (a + b) % 2 ^ 64

-- `calloc` has no room for 2^62 tasks of four bytes
abbrev pub max_capacity : ℕ
max_capacity = 2 ^ 62

unfoldable pub task_queue_init : ℕ → Option TaskQueue
task_queue_init capacity =
    if capacity == 0 || not (ltb capacity max_capacity)
    then none
    else some (record {
      items = replicate capacity 0;
      capacity = capacity;
      head = 0;
      tail = 0;
      count = 0;
      shutdown = false;
    })

-- 0, 1 and -1 of the two push functions, and a producer that goes to sleep
pub data Pushed : Type 0 where
  accepted full closed waiting : Pushed

-- the task goes to items[tail]
unfoldable pub enqueue : TaskQueue → Task → TaskQueue
enqueue q task = record q {
  items = set q.items q.tail task;
  tail = add_size q.tail 1 % q.capacity;
  count = add_size q.count 1;
}

unfoldable pub task_queue_try_push : TaskQueue → Task → TaskQueue × Pushed
unfolding enqueue
task_queue_try_push q task =
    if q.shutdown
    then (q, closed)
    else if q.count == q.capacity
    then (q, full)
    else (enqueue q task, accepted)

pub task_queue_push : TaskQueue → Task → TaskQueue × Pushed
unfolding enqueue
task_queue_push q task =
    if not q.shutdown && q.count == q.capacity
    then (q, waiting)
    else if q.shutdown
    then (q, closed)
    else (enqueue q task, accepted)

-- the results of `task_queue_pop`
pub data Popped : Type 0 where
  task : Task → Popped
  drained asleep : Popped

unfoldable pub task_queue_pop : TaskQueue → TaskQueue × Popped
task_queue_pop q =
    if q.count == 0 && not q.shutdown
    then (q, asleep)
    else if q.shutdown && q.count == 0
    then (q, drained)
    else (
      record q { head = add_size q.head 1 % q.capacity; count = q.count - 1 },
      task (get_or q.items q.head 0),
    )

unfoldable pub task_queue_shutdown : TaskQueue → TaskQueue
task_queue_shutdown q = record q { shutdown = true }

pub task_queue_size : TaskQueue → ℕ
task_queue_size q = q.count

-- A queue that holds nothing stays as it is, any other is zero.
unfoldable pub task_queue_destroy : TaskQueue → TaskQueue
task_queue_destroy q =
    if length q.items == 0
    then q
    else record { items = []; capacity = 0; head = 0; tail = 0; count = 0; shutdown = false }
