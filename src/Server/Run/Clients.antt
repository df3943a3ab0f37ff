-- ===== src/Server/Run/Clients.antt =====
-- src/server.c: no client of the accept loop is lost.
use threaded_db_api_server.Prelude.{
  ◌≡◌, refl, sym, ap, ◌∙◌, Bool, true, false, Option, none, some, List, [], ◌∷◌, ◌++◌,
  if◌then◌else◌, All, All-append, subst,
}
use threaded_db_api_server.Disk.{Disk}
use threaded_db_api_server.DbApi.{DbApi}
use threaded_db_api_server.TaskQueue.{Task, Pushed, accepted, full, closed, waiting}
use threaded_db_api_server.TaskQueue.Fifo.{contents}
use threaded_db_api_server.ThreadPool
use threaded_db_api_server.ThreadPool.{
  ThreadPool, thread_pool_init, thread_pool_try_submit, System, submit_step, log_submit, initial,
}
use threaded_db_api_server.ThreadPool.Drain.{submitted-taken}
use threaded_db_api_server.Server.Run.{
  ServerConfig, Calls, Answer, queued, refused, Server, start, server_init, answer, goes_on,
  Accepted, client, eintr, error, server_turn, works, accepts, Reach, here, next, queued_of,
  IsServed,
}

-- What every interleaving keeps, from the pool on.
pub record Kept (pool : ThreadPool) (v : Server) : Type 0 where
  pub reached : ThreadPool.Reach (initial pool) v.system
  pub logged : queued_of v.log ≡ v.system.submitted
  served : v.running ≡ true → All IsServed v.log

log_submit-cons :
    (p : Pushed) (fd k : Task) (ts : List Task) → log_submit p fd (k ∷ ts) ≡ k ∷ log_submit p fd ts
log_submit-cons accepted fd k ts = refl
log_submit-cons full fd k ts = refl
log_submit-cons closed fd k ts = refl
log_submit-cons waiting fd k ts = refl

queued_of-append :
    (log : List (Task × Answer)) (fd : Task) (p : Pushed)
    → queued_of (log ++ ((fd, answer p) ∷ [])) ≡ log_submit p fd (queued_of log)
unfolding queued_of answer
queued_of-append [] fd accepted = refl
queued_of-append [] fd full = refl
queued_of-append [] fd closed = refl
queued_of-append [] fd waiting = refl
queued_of-append ((k, queued) ∷ log) fd p =
    ap (λ ts. k ∷ ts) (queued_of-append log fd p) ∙ sym (log_submit-cons p fd k (queued_of log))
queued_of-append ((k, refused status code) ∷ log) fd p = queued_of-append log fd p

answer-IsServed : (fd : Task) (p : Pushed) → goes_on (answer p) ≡ true → IsServed (fd, answer p)
unfolding answer goes_on
answer-IsServed fd accepted e = tt
answer-IsServed fd full e = (refl, refl)
answer-IsServed fd closed e = absurd (cc e)
answer-IsServed fd waiting e = absurd (cc e)

turn-Kept :
    {pool : ThreadPool} (v : Server) (a : Accepted)
    → v.running ≡ true
    → Kept pool v
    → Kept pool (server_turn v a)
unfolding server_turn submit_step
turn-Kept v eintr e k = k
turn-Kept v error e k = record {
  reached = k.reached;
  logged = k.logged;
  served = λ e. absurd (cc e);
}
turn-Kept v (client fd) e k = record {
  reached = ThreadPool.next k.reached (ThreadPool.submits fd);
  logged =
      queued_of-append v.log fd (thread_pool_try_submit v.system.pool fd).1
      ∙ ap (log_submit (thread_pool_try_submit v.system.pool fd).1 fd) k.logged;
  served = λ on.
      All-append IsServed v.log _ (k.served e)
        (answer-IsServed fd (thread_pool_try_submit v.system.pool fd).1 on, tt);
}

Reach-Kept : {pool : ThreadPool} {v w : Server} → Kept pool v → Reach v w → Kept pool w
Reach-Kept k here = k
Reach-Kept k (next r (accepts a e)) = turn-Kept _ a e (Reach-Kept k r)
Reach-Kept k (next r (works step same)) =
    let before = Reach-Kept k r in
    record {
      reached = ThreadPool.next before.reached step;
      logged = before.logged ∙ sym same;
      served = before.served;
    }

-- A server that was made starts with a fresh pool.
start-Kept :
    (config : ServerConfig) (api : DbApi) (o : Option ThreadPool) {v : Server}
    → start config api o ≡ some v
    → (pool : ThreadPool) × (o ≡ some pool) × Kept pool v
unfolding start queued_of
start-Kept config api none e = absurd (cc e)
start-Kept config api (some pool) e = (
  pool,
  refl,
  subst (Kept pool) (made e)
      (record { reached = ThreadPool.here; logged = refl; served = λ on. tt }),
)
  where
    made : {v w : Server} → ◌≡◌ {A = Option Server} (some w) (some v) → w ≡ v
    made e = cc e

guarded_some :
    (b : Bool) (o : Option Server) {v : Server} → (if b then o else none) ≡ some v → o ≡ some v
guarded_some true o e = e
guarded_some false o e = absurd (cc e)

-- The pool that was made with a server, and what it kept since.
pub made-Kept :
    (calls : Calls) (disk : Disk) (config : ServerConfig) {v w : Server}
    → server_init calls disk config ≡ some v
    → Reach v w
    → (pool : ThreadPool) × (thread_pool_init calls.creates config.thread_count
          config.queue_capacity
        ≡ some pool)
      × Kept pool w
unfolding server_init
made-Kept calls disk config e r =
    let (pool, made, fresh) = start-Kept config _ _ (guarded_some _ _ e) in
    (pool, made, Reach-Kept fresh r)

-- In every state that a server can reach from its start, whatever the order in which clients come
-- and the workers take their turns: the clients that the accept loop queued are those that a
-- worker has taken, in the same order, and then those in the queue; and while the loop runs, every
-- other client was answered with status 503 and QUEUE_FULL.
pub queued-taken :
    (calls : Calls) (disk : Disk) (config : ServerConfig) {v w : Server}
    → server_init calls disk config ≡ some v
    → Reach v w
    → (queued_of w.log ≡ w.system.taken ++ contents w.system.pool.queue)
      × (w.running ≡ true → All IsServed w.log)
queued-taken calls disk config e r =
    let (pool, made, k) = made-Kept calls disk config e r in
    (
      k.logged
          ∙ submitted-taken calls.creates config.thread_count config.queue_capacity made k.reached,
      k.served,
    )
