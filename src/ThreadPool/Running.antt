-- ===== src/ThreadPool/Running.antt =====
-- src/thread_pool.c: what every interleaving of the accept loop and the workers keeps.
use threaded_db_api_server.Prelude.{
  ℕ, ◌≡◌, ◌⊎◌, refl, sym, ap, ◌∙◌, Bool, true, false, not, ◌||◌, Option, none, some, [], ◌∷◌, ◌++◌,
  ◌==◌, if◌then◌else◌, arith, Bool-cases, inl, inr, append_assoc,
}
use threaded_db_api_server.TaskQueue.{
  Task, TaskQueue, task_queue_init, Pushed, accepted, full, closed, waiting, task_queue_try_push,
  Popped, task, drained, asleep, task_queue_shutdown,
}
use threaded_db_api_server.TaskQueue.Fifo.{contents, IsValid, task_queue_init-IsValid}
use threaded_db_api_server.TaskQueue.Refine.{
  call-IsValid, call, try_push, pop, shutdown, PushOutcome, try_push-PushOutcome, PopOutcome,
  pop-PopOutcome,
}
use threaded_db_api_server.ThreadPool.{
  ThreadPool, start_threads, thread_pool_init, thread_pool_try_submit, thread_pool_shutdown, Worker,
  popping, exited, handling, after_pop, System, set_worker, log_submit, log_pop, submit_step,
  pop_step, Step, submits, handles, pops, shuts, initial, Reach, here, next,
}

-- A worker has left its loop only after the queue was shut and empty.
pub record IsRunning (s : System) : Type 0 where
  pub valid : IsValid s.pool.queue
  pub logged : s.submitted ≡ s.taken ++ contents s.pool.queue
  pub stopped :
      (i : ℕ) → s.worker i ≡ exited → (contents s.pool.queue ≡ []) × (s.pool.queue.shutdown ≡ true)

after_push :
    (s : System) (t : Task) (q : TaskQueue) (r : Pushed)
    → IsRunning s
    → IsValid q
    → PushOutcome s.pool.queue t (q, r)
    → IsRunning
        (record s { pool = record s.pool { queue = q }; submitted = log_submit r t s.submitted })
after_push s t q accepted v w (opened, _, grown) = record {
  valid = w;
  logged =
      ap (λ ts. ts ++ (t ∷ [])) v.logged
      ∙ append_assoc s.taken _ _
      ∙ ap (λ ts. s.taken ++ ts) (sym grown);
  stopped = λ i e. let (_, shut) = v.stopped i e in cc;
}
after_push s t q full v w same = record {
  valid = w;
  logged = rw same v.logged;
  stopped = λ i e. rw same (v.stopped i e);
}
after_push s t q closed v w same = record {
  valid = w;
  logged = rw same v.logged;
  stopped = λ i e. rw same (v.stopped i e);
}
after_push s t q waiting v w same = record {
  valid = w;
  logged = rw same v.logged;
  stopped = λ i e. rw same (v.stopped i e);
}

submitted_when :
    (s : System) (t : Task) (b : Bool)
    → IsRunning s
    → let (pool, r) =
        if◌then◌else◌ {A = ThreadPool × Pushed}
          (not b)
          (s.pool, closed)
          (let (q, r) = task_queue_try_push s.pool.queue t in (record s.pool { queue = q }, r)) in
      IsRunning (record s { pool = pool; submitted = log_submit r t s.submitted })
unfolding call
submitted_when s t true v =
    after_push s t _ _ v (call-IsValid (try_push t) s.pool.queue v.valid).0
      (try_push-PushOutcome s.pool.queue t v.valid)
submitted_when s t false v = v

submit_step-IsRunning : (s : System) (t : Task) → IsRunning s → IsRunning (submit_step s t)
unfolding submit_step thread_pool_try_submit
submit_step-IsRunning s t v = submitted_when s t s.pool.started v

exited_before :
    (w : ℕ → Worker) (i j : ℕ) (x : Worker)
    → set_worker w i x j ≡ exited
    → (x ≡ exited) ⊎ (w j ≡ exited)
exited_before w i j x p = ground (arith)

after_take :
    (s : System) (i : ℕ) (q : TaskQueue) (r : Popped)
    → IsRunning s
    → IsValid q
    → PopOutcome s.pool.queue (q, r)
    → IsRunning (record s {
      pool = record s.pool { queue = q };
      worker = set_worker s.worker i (after_pop r);
      taken = log_pop r s.taken;
    })
unfolding after_pop
after_take s i q (task t) v w (_, e) = record {
  valid = w;
  logged = v.logged ∙ ap (λ ts. s.taken ++ ts) e ∙ sym (append_assoc s.taken (t ∷ []) (contents q));
  stopped = λ j p. elim (exited_before s.worker i j (handling t) p) [
    | inl n ↦ cc
    | inr o ↦ let (none_left, _) = v.stopped j o in cc
  ];
}
after_take s i q drained v w (same, e, shut) = record {
  valid = w;
  logged = rw same v.logged;
  stopped = λ j _. rw same (e, shut);
}
after_take s i q asleep v w (same, _) = record {
  valid = w;
  logged = rw same v.logged;
  stopped = λ j p. elim (exited_before s.worker i j popping p) [
    | inl n ↦ cc
    | inr o ↦ rw same (v.stopped j o)
  ];
}

pop_step-IsRunning : (s : System) (i : ℕ) → IsRunning s → IsRunning (pop_step s i)
unfolding pop_step call
pop_step-IsRunning s i v =
    after_take s i _ _ v (call-IsValid pop s.pool.queue v.valid).0
      (pop-PopOutcome s.pool.queue v.valid)

shut_when :
    (s : System) (b : Bool)
    → IsRunning s
    → IsRunning (record s {
      pool = if not b then s.pool else record s.pool { queue = task_queue_shutdown s.pool.queue };
    })
unfolding call task_queue_shutdown
shut_when s true v = record {
  valid = (call-IsValid shutdown s.pool.queue v.valid).0;
  logged = v.logged;
  stopped = λ i e. let (none_left, _) = v.stopped i e in (none_left, refl);
}
shut_when s false v = v

Step-IsRunning : {s u : System} → IsRunning s → Step s u → IsRunning u
unfolding thread_pool_shutdown
Step-IsRunning {s} v (submits t) = submit_step-IsRunning s t v
Step-IsRunning {s} v (pops i _ _) = pop_step-IsRunning s i v
Step-IsRunning {s} v (handles i t e) = record {
  valid = v.valid;
  logged = v.logged;
  stopped =
      λ j p. elim (exited_before s.worker i j popping p) [ inl n ↦ cc | inr o ↦ v.stopped j o ];
}
Step-IsRunning {s} v shuts = shut_when s s.pool.started v

pub Reach-IsRunning : {s u : System} → IsRunning s → Reach s u → IsRunning u
Reach-IsRunning v here = v
Reach-IsRunning v (next r p) = Step-IsRunning (Reach-IsRunning v r) p

fresh : TaskQueue → ℕ → ThreadPool
fresh queue n = record { thread_count = n; created_count = n; queue = queue; started = true }

made_by :
    (creates : ℕ → Bool) (n : ℕ) (o : Option TaskQueue) {pool : ThreadPool}
    → start_threads creates n o ≡ some pool
    → (queue : TaskQueue) × (o ≡ some queue) × (fresh queue n ≡ pool)
unfolding start_threads fresh
made_by creates n none e = cc
made_by creates n (some queue) e = (queue, refl, ground arith)

made :
    (creates : ℕ → Bool) (n c : ℕ) {pool : ThreadPool}
    → thread_pool_init creates n c ≡ some pool
    → (queue : TaskQueue) × (task_queue_init c ≡ some queue) × (fresh queue n ≡ pool)
unfolding thread_pool_init
made creates n c e = elim (Bool-cases (n == 0 || c == 0)) [
  | inl b ↦ cc
  | inr b ↦ made_by creates n _ (rw b at e)
]

fresh-IsRunning :
    (c n : ℕ) (queue : TaskQueue)
    → task_queue_init c ≡ some queue
    → IsRunning (initial (fresh queue n)) × (queue.capacity ≡ c)
unfolding fresh
fresh-IsRunning c n queue q =
    let (v, empty, cap, unshut) = task_queue_init-IsValid c q in
    (record { valid = v; logged = sym empty; stopped = λ i e. cc }, cap)

-- A pool that comes to be has all its threads and an empty queue of the asked capacity, and no
-- worker of it has left its loop.
pub thread_pool_init-IsRunning :
    (creates : ℕ → Bool) (n c : ℕ) {pool : ThreadPool}
    → thread_pool_init creates n c ≡ some pool
    → IsRunning (initial pool) × (pool.thread_count ≡ n) × (pool.queue.capacity ≡ c)
unfolding fresh
thread_pool_init-IsRunning creates n c e =
    let (queue, q, p) = made creates n c e in
    let (v, cap) = fresh-IsRunning c n queue q in rw (← p) (v, refl, cap)
