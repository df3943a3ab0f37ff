-- ===== src/ThreadPool/Join.antt =====
-- src/thread_pool.c: `thread_pool_destroy` can join all its threads.
use threaded_db_api_server.Prelude.{
  ℕ, zero, suc, ◌<◌, ◌≤◌, ◌≡◌, refl, ap, ◌∙◌, inl, inr, Bool, true, false, not, ◌||◌, Bool-cases,
  Option, none, some, ◌==◌, if◌then◌else◌, arith, subst, ==_self,
}
use threaded_db_api_server.TaskQueue.{
  TaskQueue, task_queue_init, task_queue_try_push, task_queue_pop, task_queue_shutdown,
}
use threaded_db_api_server.ThreadPool.{
  ThreadPool, start_threads, thread_pool_init, thread_pool_try_submit, thread_pool_shutdown, Worker,
  popping, exited, handling, System, set_worker, submit_step, pop_step, Step, submits, pops,
  handles, shuts, initial, Reach, here, next, no_pool, shut_queue, Destroys, joins,
}
use threaded_db_api_server.ThreadPool.Drain.{drains, Reach-trans, exited-taken}

-- What no step changes of a pool.
record Fixed (pool : ThreadPool) : Type 0 where
  started : pool.started ≡ true
  created : pool.created_count ≡ pool.thread_count
  manned : 0 < pool.thread_count

submit-Fixed : (s : System) (t : ℕ) → Fixed s.pool → Fixed (submit_step s t).pool
unfolding submit_step thread_pool_try_submit
submit-Fixed s t f = ground arith

if_started : (b : Bool) (p q : ThreadPool) → b ≡ true → (if not b then p else q) ≡ q
if_started true p q e = refl
if_started false p q e = absurd (cc e)

shutdown_lem :
    (s : System)
    → s.pool.started ≡ true
    → record s { pool = thread_pool_shutdown s.pool } ≡ shut_queue s
unfolding thread_pool_shutdown shut_queue
shutdown_lem s e = ap (λ pool. record s { pool = pool }) (if_started s.pool.started _ _ e)

Step-Fixed : {s t : System} → Fixed s.pool → Step s t → Fixed t.pool
unfolding pop_step thread_pool_shutdown
Step-Fixed {s} f (submits t) = submit-Fixed s t f
Step-Fixed f (pops i p w) = record { started = f.started; created = f.created; manned = f.manned }
Step-Fixed f (handles i t w) = f
Step-Fixed f shuts = ground arith

init-Fixed :
    (creates : ℕ → Bool) (n c : ℕ) {pool : ThreadPool}
    → thread_pool_init creates n c ≡ some pool
    → Fixed pool
unfolding thread_pool_init
init-Fixed creates n c {pool} e = go (task_queue_init c) e
  where
    go :
        (o : Option TaskQueue)
        → (if n == 0 || c == 0 then none else start_threads creates n o) ≡ some pool
        → Fixed pool
    go none e = ground (arith, e)
    go (some q) e = ground (arith, e)

Reach-Fixed : {s t : System} → Fixed s.pool → Reach s t → Fixed t.pool
Reach-Fixed f here = f
Reach-Fixed f (next r step) = Step-Fixed (Reach-Fixed f r) step

-- What a step leaves: a worker that has left its loop, and the shutdown.
Step-exited : {s t : System} (i : ℕ) → s.worker i ≡ exited → Step s t → t.worker i ≡ exited
unfolding submit_step pop_step
Step-exited i e (submits t) = e
Step-exited {s} i e (pops j p w) = ground (arith, e, w)
Step-exited {s} i e (handles j t w) = ground (arith, e, w)
Step-exited i e shuts = e

Step-shutdown :
    {s t : System} → s.pool.queue.shutdown ≡ true → Step s t → t.pool.queue.shutdown ≡ true
unfolding submit_step pop_step thread_pool_try_submit task_queue_try_push task_queue_pop
    thread_pool_shutdown task_queue_shutdown
Step-shutdown e (submits t) = ground (arith, e)
Step-shutdown e (pops j p w) = ground (arith, e)
Step-shutdown e (handles j t w) = e
Step-shutdown e shuts = ground (arith, e)

-- A worker that is wherever it is comes out of its loop once the queue is shut.
exits :
    (s : System) (i : ℕ)
    → s.pool.queue.shutdown ≡ true
    → i < s.pool.thread_count
    → (w : Worker) → s.worker i ≡ w
    → (u : System) × Reach s u × (u.worker i ≡ exited)
exits s i shut p exited e = (s, here, e)
exits s i shut p popping e =
    let (u, r, x, _) = drains s.pool.queue.count s i refl shut p e in (u, r, x)
exits s i shut p (handling t) e =
    let s1 : System = record s { worker = set_worker s.worker i popping } in
    let (u, r, x, _) = drains s.pool.queue.count s1 i refl shut p (rw ==_self refl) in
    (u, Reach-trans (next here (handles i t e)) r, x)

Reach-exited : {s t : System} (i : ℕ) → s.worker i ≡ exited → Reach s t → t.worker i ≡ exited
Reach-exited i e here = e
Reach-exited i e (next r step) = Step-exited i (Reach-exited i e r) step

Reach-shutdown :
    {s t : System} → s.pool.queue.shutdown ≡ true → Reach s t → t.pool.queue.shutdown ≡ true
Reach-shutdown e here = e
Reach-shutdown e (next r step) = Step-shutdown (Reach-shutdown e r) step

Step-count : {s t : System} → Step s t → t.pool.thread_count ≡ s.pool.thread_count
unfolding submit_step pop_step thread_pool_try_submit thread_pool_shutdown
Step-count {s} (submits t) = ground arith
Step-count (pops j p w) = refl
Step-count (handles j t w) = refl
Step-count shuts = ground arith

Reach-count : {s t : System} → Reach s t → t.pool.thread_count ≡ s.pool.thread_count
Reach-count here = refl
Reach-count (next r step) = Step-count step ∙ Reach-count r

-- The first `k` threads are joined, one after the other.
joined :
    (k : ℕ) (s : System)
    → s.pool.queue.shutdown ≡ true
    → k ≤ s.pool.thread_count
    → (u : System) × Reach s u × ((i : ℕ) → i < k → u.worker i ≡ exited)
joined zero s shut h = (s, here, λ i l. absurd (omega arith))
joined (suc k) s shut h =
    let (t, r, before) = joined k s shut (omega arith) in
    let (u, q, x) =
      exits t k (Reach-shutdown shut r) (omega (arith, Reach-count r, h)) (t.worker k) refl in
    (u, Reach-trans r q, λ i l. last u i l x (λ m. Reach-exited i (before i m) q))
  where
    last :
        (u : System) (i : ℕ)
        → i < suc k
        → u.worker k ≡ exited
        → (i < k → u.worker i ≡ exited)
        → u.worker i ≡ exited
    last u i l x before = elim (Bool-cases (i == k)) [
      | inl e ↦ subst (λ j. u.worker j ≡ exited) {x = k} {y = i} (ground (arith, e)) x
      | inr e ↦ before (ground (arith, e, l))
    ]

shut_steps : (s : System) → Fixed s.pool → Reach s (shut_queue s)
shut_steps s f = subst (λ t. Reach s t) (shutdown_lem s f.started) (next here shuts)

destroyed-taken :
    (creates : ℕ → Bool) (n c : ℕ) {pool : ThreadPool} {s u : System} {left : ThreadPool}
    → thread_pool_init creates n c ≡ some pool
    → Reach (initial pool) s
    → Destroys s u left
    → u.taken ≡ u.submitted
destroyed-taken creates n c {s = s} e r (joins q all) =
    let f = Reach-Fixed (init-Fixed creates n c e) r in
    (exited-taken creates n c 0 e (Reach-trans r (Reach-trans (shut_steps s f) q))
      (all 0 (omega (arith, f.created, f.manned)))).1

-- A shut queue takes no task.
Step-submitted :
    {s t : System} → s.pool.queue.shutdown ≡ true → Step s t → t.submitted ≡ s.submitted
unfolding submit_step pop_step thread_pool_try_submit task_queue_try_push
Step-submitted e (submits t) = ground (arith, e)
Step-submitted e (pops j p w) = refl
Step-submitted e (handles j t w) = refl
Step-submitted e shuts = refl

Reach-submitted :
    {s t : System} → s.pool.queue.shutdown ≡ true → Reach s t → t.submitted ≡ s.submitted
Reach-submitted e here = refl
Reach-submitted e (next r step) = Step-submitted (Reach-shutdown e r) step ∙ Reach-submitted e r

pub Destroys-submitted :
    {s u : System} {left : ThreadPool} → Destroys s u left → u.submitted ≡ s.submitted
unfolding shut_queue task_queue_shutdown
Destroys-submitted (joins q all) = Reach-submitted refl q

-- From every state that a freshly made pool can reach, `thread_pool_destroy` can return: the
-- threads come out of their loops so that each is joined. And whenever it returns, every task that
-- was accepted has been taken by a thread, in order.
pub destroy-joins :
    (creates : ℕ → Bool) (n c : ℕ) {pool : ThreadPool} {s : System}
    → thread_pool_init creates n c ≡ some pool
    → Reach (initial pool) s
    → ((u : System) × Destroys s u no_pool)
      × ((u : System) → Destroys s u no_pool → u.taken ≡ u.submitted)
unfolding shut_queue task_queue_shutdown
destroy-joins creates n c {s = s} e r =
    let f = Reach-Fixed (init-Fixed creates n c e) r in
    let (u, q, all) = joined s.pool.thread_count (shut_queue s) refl (omega arith) in
    (
      (u, joins q (λ i l. all i (omega (arith, f.created, l)))),
      λ v d. destroyed-taken creates n c e r d,
    )
