-- ===== src/Tests/Clients.antt =====
-- A client of the server, of src/http.c and src/server.c.
use threaded_db_api_server.Prelude.{
  ℕ, ◌≤◌, length, ◌≡◌, ◌↔◌, refl, ap, arith, true, Option, none, some, [], ◌∷◌, ◌++◌, All,
  if◌then◌else◌,
}
use threaded_db_api_server.Prelude.Bytes.{Bytes, codes}
use threaded_db_api_server.Ids.{parse_digits, print_u64}
use threaded_db_api_server.Ids.RoundTrip.{parse_digits-decimal}
use threaded_db_api_server.Json.{json_append_escaped_string, escape_bytes}
use threaded_db_api_server.Json.RoundTrip.{all_readable, request_body}
use threaded_db_api_server.Http.Head.{Strtoull}
use threaded_db_api_server.Http.Head.Limits.{Answered}
use threaded_db_api_server.Http.{arrives, interrupted, fails, Socket, http_read_request}
use threaded_db_api_server.Http.Limits.{WithinLimits, http_read_request-Answered}
use threaded_db_api_server.Http.Response.{
  takes, retries, http_send_json_response, response_text, http_send_json_response-part,
}
use threaded_db_api_server.Http.Stream.{stream, Flows, read_whole}
use threaded_db_api_server.Http.Stream.Whole.{http_read_request-read_whole}
use threaded_db_api_server.Http.Stream.Post.{ReadsDecimal, post_text}
use threaded_db_api_server.Server.{error_response, query, server_handle_client_task}
use threaded_db_api_server.Server.Routes.{IsClientError}
use threaded_db_api_server.DbApi.{db_api_init}
use threaded_db_api_server.TaskQueue.{task_queue_init, task_queue_try_push}
use threaded_db_api_server.TaskQueue.Fifo.{contents}
use threaded_db_api_server.ThreadPool.{
  thread_pool_init, thread_pool_try_submit, submit_step, initial,
}
use threaded_db_api_server.Server.Run.{
  Calls, ServerConfig, queued, refused, Server, server_init, client, server_turn, accepts, here,
  next, queued_of, IsServed, Destroys,
}
use threaded_db_api_server.Server.Run.Clients.{queued-taken}
use threaded_db_api_server.Server.Run.Shutdown.{server_destroy-taken}
use threaded_db_api_server.Tests.Files.{one_row, dir}
use threaded_db_api_server.Tests.Queues.{all_made, small_pool}
use threaded_db_api_server.Server.Client.{client-post_text, client-IsClientError}

-- A `strtoull` for texts of digits.
abbrev pub number_of : Option ℕ → Bytes → ℕ × Bytes
number_of none text = (0, text)
number_of (some n) text = (n, [])

abbrev pub digits_only : Strtoull
digits_only text = number_of (parse_digits 0 text) text

digits_only-ReadsDecimal : ReadsDecimal digits_only
unfolding print_u64
digits_only-ReadsDecimal n h =
    ap (λ o. number_of o (print_u64 n)) (parse_digits-decimal 20 n (omega arith) (omega arith))

abbrev select_text : Bytes
select_text = codes "SELECT * FROM users"

-- A request that arrives in two pieces, with an interruption between them and a byte behind it.
abbrev two_pieces : Socket
two_pieces =
    arrives (codes "POST /query HTTP/1.1\r\nCont")
    ∷ interrupted
    ∷ arrives (codes "ent-Length: 29\r\n\r\n{\"sql\":\"SELECT * FROM users\"}!")
    ∷ []

two_pieces-Flows : Flows two_pieces
two_pieces-Flows = (omega arith, (omega arith, tt))

http_read_request-read_whole_example :
    http_read_request digits_only two_pieces ≡ read_whole digits_only (stream two_pieces)
http_read_request-read_whole_example =
    http_read_request-read_whole digits_only two_pieces two_pieces-Flows

sent_post : stream two_pieces ≡ post_text (request_body select_text) (codes "!")
unfolding stream print_u64 request_body json_append_escaped_string escape_bytes
sent_post = refl

small_body : length (request_body select_text) ≤ 8192
unfolding request_body json_append_escaped_string escape_bytes
small_body = omega arith

client-post_text_example : server_handle_client_task digits_only two_pieces ≡ (
    if all_readable select_text
    then query select_text
    else error_response 400 (codes "INVALID_JSON"))
client-post_text_example =
    client-post_text digits_only two_pieces select_text (codes "!") digits_only-ReadsDecimal
      two_pieces-Flows sent_post small_body

-- A client whose socket fails in the middle of the head.
abbrev broken_off : Socket
broken_off = arrives (codes "POST /query HTTP/1.1\r\n") ∷ fails ∷ []

client-IsClientError_example : IsClientError (server_handle_client_task digits_only broken_off)
client-IsClientError_example = client-IsClientError digits_only broken_off

http_read_request-Answered_example :
    Answered WithinLimits (http_read_request digits_only two_pieces)
http_read_request-Answered_example = http_read_request-Answered digits_only two_pieces

http_send_json_response-part_example :
    (rest : Bytes) × ((http_send_json_response
          (takes 100 ∷ retries ∷ takes 3 ∷ [])
          200
          (codes "{}")).bytes
        ++ rest
      ≡ response_text 200 (codes "{}"))
    × (((http_send_json_response (takes 100 ∷ retries ∷ takes 3 ∷ []) 200 (codes "{}")).done ≡ true)
        ↔ (rest ≡ []))
http_send_json_response-part_example =
    http_send_json_response-part (takes 100 ∷ retries ∷ takes 3 ∷ []) 200 (codes "{}")

abbrev all_calls : Calls
all_calls = record {
  makes_socket = true;
  sets_option = true;
  binds = true;
  listens = true;
  creates = all_made;
}

abbrev small_config : ServerConfig
small_config = record { db_dir = dir; port = 8080; thread_count = 1; queue_capacity = 1 }

abbrev started : Server
started = record {
  config = small_config;
  db_api = db_api_init one_row dir;
  system = initial small_pool;
  log = [];
  running = true;
}

made_server : server_init all_calls one_row small_config ≡ some started
unfolding server_init thread_pool_init task_queue_init
made_server = refl

abbrev two_clients : Server
two_clients = server_turn (server_turn started (client 7)) (client 8)

goes_on_queued : (server_turn started (client 7)).running ≡ true
unfolding server_turn thread_pool_try_submit task_queue_try_push
goes_on_queued = refl

queued-taken_example :
    (queued_of two_clients.log ≡ two_clients.system.taken ++ contents two_clients.system.pool.queue)
    × (two_clients.running ≡ true → All IsServed two_clients.log)
queued-taken_example =
    queued-taken all_calls one_row small_config {v = started} {w = two_clients} made_server
      (next (next here (accepts (client 7) refl)) (accepts (client 8) goes_on_queued))

server_destroy-taken_example :
    ((u : Server) × Destroys two_clients u)
    × ((u : Server) → Destroys two_clients u → u.system.taken ≡ queued_of two_clients.log)
server_destroy-taken_example =
    server_destroy-taken all_calls one_row small_config {v = started} {w = two_clients} made_server
      (next (next here (accepts (client 7) refl)) (accepts (client 8) goes_on_queued))

-- The second client is told that the queue is full, and the loop goes on.
second_refused : two_clients.log ≡ (7, queued) ∷ (8, refused 503 (codes "QUEUE_FULL")) ∷ []
unfolding server_turn thread_pool_try_submit task_queue_try_push submit_step
second_refused = refl
