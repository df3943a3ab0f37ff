-- ===== src/Tests/Queues.antt =====
-- A pool of one worker over a queue of one place, of src/thread_pool.c and src/task_queue.c.
use threaded_db_api_server.Prelude.{ℕ, ◌≡◌, refl, ◌++◌, Bool, true, false, some, [], ◌∷◌}
use threaded_db_api_server.TaskQueue.{TaskQueue, task_queue_init}
use threaded_db_api_server.TaskQueue.Fifo.{contents, IsValid, task_queue_init-IsValid}
use threaded_db_api_server.TaskQueue.Refine.{
  view, call, try_push, fifo_call, call-IsValid, call_refines,
}
use threaded_db_api_server.ThreadPool.{
  ThreadPool, thread_pool_init, System, submit_step, submits, initial, here, next,
}
use threaded_db_api_server.ThreadPool.Drain.{submitted-taken}

abbrev pub empty_queue : TaskQueue
empty_queue = record {
  items = 0 ∷ [];
  capacity = 1;
  head = 0;
  tail = 0;
  count = 0;
  shutdown = false;
}

made_queue : task_queue_init 1 ≡ some empty_queue
unfolding task_queue_init
made_queue = refl

empty_queue-IsValid : IsValid empty_queue
empty_queue-IsValid = (task_queue_init-IsValid 1 made_queue).0

call-IsValid_example :
    IsValid (call (try_push 8) empty_queue).0 × ((call (try_push 8) empty_queue).0.capacity ≡ 1)
call-IsValid_example = call-IsValid (try_push 8) empty_queue empty_queue-IsValid

call_refines_example :
    let (q', r) = call (try_push 8) empty_queue in
    (view q', r) ≡ fifo_call 1 (try_push 8) (view empty_queue)
call_refines_example = call_refines (try_push 8) empty_queue empty_queue-IsValid

abbrev pub all_made : ℕ → Bool
all_made i = true

abbrev pub small_pool : ThreadPool
small_pool = record { thread_count = 1; created_count = 1; queue = empty_queue; started = true }

made_pool : thread_pool_init all_made 1 1 ≡ some small_pool
unfolding thread_pool_init task_queue_init
made_pool = refl

abbrev one_submitted : System
one_submitted = submit_step (initial small_pool) 8

submitted-taken_example :
    one_submitted.submitted ≡ one_submitted.taken ++ contents one_submitted.pool.queue
submitted-taken_example = submitted-taken all_made 1 1 made_pool (next here (submits 8))
