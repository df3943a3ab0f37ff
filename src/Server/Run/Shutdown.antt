-- ===== src/Server/Run/Shutdown.antt =====
-- src/server.c: `server_destroy` returns when the clients in the queue are served.
use threaded_db_api_server.Prelude.{◌≡◌, sym, ◌∙◌, some}
use threaded_db_api_server.Disk.{Disk}
use threaded_db_api_server.ThreadPool
use threaded_db_api_server.ThreadPool.{System, no_pool}
use threaded_db_api_server.ThreadPool.Join.{destroy-joins, Destroys-submitted}
use threaded_db_api_server.Server.Run.{
  ServerConfig, Calls, Server, server_init, Reach, Destroys, destroys, queued_of,
}
use threaded_db_api_server.Server.Run.Clients.{made-Kept}

-- From every state that a server can reach from its start, `server_destroy` can return. And
-- whenever it returns, the clients that the accept loop queued have all been taken by a worker, in
-- order.
pub server_destroy-taken :
    (calls : Calls) (disk : Disk) (config : ServerConfig) {v w : Server}
    → server_init calls disk config ≡ some v
    → Reach v w
    → ((u : Server) × Destroys w u)
      × ((u : Server) → Destroys w u → u.system.taken ≡ queued_of w.log)
server_destroy-taken calls disk config {w = w} e r =
    let (pool, made, k) = made-Kept calls disk config e r in
    let ((t, d), taken) =
      destroy-joins calls.creates config.thread_count config.queue_capacity made k.reached in
    ((_, destroys d), λ u. served (sym k.logged) taken)
  where
    served :
        w.system.submitted ≡ queued_of w.log
        → ((t : System) → ThreadPool.Destroys w.system t no_pool → t.taken ≡ t.submitted)
        → {u : Server} → Destroys w u
        → u.system.taken ≡ queued_of w.log
    served logged taken (destroys {t} d) = taken t d ∙ Destroys-submitted d ∙ logged
