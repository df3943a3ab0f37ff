-- ===== src/ThreadPool/Drain.antt =====
-- src/thread_pool.c: no accepted task is lost, and a shutdown lets the workers finish them.
use threaded_db_api_server.Prelude.{
  ℕ, zero, suc, ◌<◌, ◌≡◌, refl, sym, ap, ◌∙◌, Bool, true, some, ◌++◌, arith, append-nil, get_or,
  ==_self,
}
use threaded_db_api_server.TaskQueue.{TaskQueue, task, drained, task_queue_pop}
use threaded_db_api_server.TaskQueue.Fifo.{contents}
use threaded_db_api_server.ThreadPool.{
  ThreadPool, thread_pool_init, popping, exited, handling, after_pop, System, set_worker, pop_step,
  handles, pops, initial, Reach, here, next,
}
use threaded_db_api_server.ThreadPool.Running.{Reach-IsRunning, thread_pool_init-IsRunning}

-- In every state that a freshly made pool can reach, whatever the order of the steps, the accepted
-- tasks are those that workers took, in the same order, and then those in the queue.
pub submitted-taken :
    (creates : ℕ → Bool) (n c : ℕ) {pool : ThreadPool} {s : System}
    → thread_pool_init creates n c ≡ some pool
    → Reach (initial pool) s
    → s.submitted ≡ s.taken ++ contents s.pool.queue
submitted-taken creates n c e r =
    (Reach-IsRunning (thread_pool_init-IsRunning creates n c e).0 r).logged

-- In every state that a freshly made pool can reach in which some worker has left its loop, the
-- queue is shut and every accepted task has been taken, in order.
pub exited-taken :
    (creates : ℕ → Bool) (n c : ℕ) {pool : ThreadPool} {s : System} (i : ℕ)
    → thread_pool_init creates n c ≡ some pool
    → Reach (initial pool) s
    → s.worker i ≡ exited
    → (s.pool.queue.shutdown ≡ true) × (s.taken ≡ s.submitted)
exited-taken creates n c {s = s} i e r x =
    let v = Reach-IsRunning (thread_pool_init-IsRunning creates n c e).0 r in
    let (empty, shut) = v.stopped i x in
    (shut, sym (v.logged ∙ ap (λ ts. s.taken ++ ts) empty ∙ append-nil _))

pop_empty : (q : TaskQueue) → q.count ≡ 0 → q.shutdown ≡ true → task_queue_pop q ≡ (q, drained)
unfolding task_queue_pop
pop_empty q z s = ground arith

pop_shut :
    (q : TaskQueue) (k : ℕ)
    → q.count ≡ suc k
    → ((task_queue_pop q).0.count ≡ k)
      × ((task_queue_pop q).0.shutdown ≡ q.shutdown)
      × ((task_queue_pop q).1 ≡ task (get_or q.items q.head 0))
unfolding task_queue_pop
pop_shut q k e = ground arith

pub Reach-trans : {s t u : System} → Reach s t → Reach t u → Reach s u
Reach-trans r here = r
Reach-trans r (next p q) = next (Reach-trans r p) q

-- worker `i` can drain the queue
abbrev pub CanDrain : System → ℕ → Type 0
CanDrain s i = (u : System) × Reach s u × (u.worker i ≡ exited) × (u.submitted ≡ s.submitted)

submitted-pop_step : (s : System) (i : ℕ) → (pop_step s i).submitted ≡ s.submitted
unfolding pop_step
submitted-pop_step s i = refl

worker_exits :
    (s : System) (i : ℕ)
    → s.pool.queue.count ≡ 0
    → s.pool.queue.shutdown ≡ true
    → (pop_step s i).worker i ≡ exited
unfolding pop_step after_pop
worker_exits s i e shut = rw (==_self, pop_empty s.pool.queue e shut) refl

worker_handles :
    (s : System) (i k : ℕ)
    → s.pool.queue.count ≡ suc k
    → (pop_step s i).worker i ≡ handling (get_or s.pool.queue.items s.pool.queue.head 0)
unfolding pop_step after_pop
worker_handles s i k e = let (_, _, x) = pop_shut s.pool.queue k e in rw (==_self, x) refl

pub drains :
    (k : ℕ) (s : System) (i : ℕ)
    → s.pool.queue.count ≡ k
    → s.pool.queue.shutdown ≡ true
    → i < s.pool.thread_count
    → s.worker i ≡ popping
    → CanDrain s i
unfolding pop_step
drains zero s i e shut p w =
    (pop_step s i, next here (pops i p w), worker_exits s i e shut, submitted-pop_step s i)
drains (suc k) s i e shut p w =
    let busy = worker_handles s i k e in
    let (count, still, kept) = pop_shut s.pool.queue k e in
    let s1 : System = pop_step s i in
    let s2 : System = record s1 { worker = set_worker s1.worker i popping } in
    let (u, r, x, n) = drains k s2 i count (still ∙ shut) p (rw ==_self refl) in
    (
      u,
      Reach-trans (next (next here (pops i p w)) (handles i _ busy)) r,
      x,
      n ∙ submitted-pop_step s i,
    )

-- From every state that a freshly made pool can reach with its queue shut and a worker of it that
-- asks for its next task, a state can be reached in which that worker has left its loop and the
-- tasks taken are just those accepted so far.
pub shutdown-drains :
    (creates : ℕ → Bool) (n c : ℕ) {pool : ThreadPool} {s : System} (i : ℕ)
    → thread_pool_init creates n c ≡ some pool
    → Reach (initial pool) s
    → s.pool.queue.shutdown ≡ true
    → i < s.pool.thread_count
    → s.worker i ≡ popping
    → (u : System) × Reach s u × (u.worker i ≡ exited) × (u.taken ≡ s.submitted)
shutdown-drains creates n c {s = s} i e r shut p w =
    let (u, q, x, same) = drains s.pool.queue.count s i refl shut p w in
    let (_, all) = exited-taken creates n c i e (Reach-trans r q) x in (u, q, x, all ∙ same)
