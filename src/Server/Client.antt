-- ===== src/Server/Client.antt =====
-- src/server.c: a client from its bytes on.
use threaded_db_api_server.Prelude.{◌≤◌, ◌≡◌, refl, ap, ◌∙◌, inl, inr, if◌then◌else◌, length}
use threaded_db_api_server.Prelude.Bytes.{Bytes, codes}
use threaded_db_api_server.Json.RoundTrip.{all_readable, request_body}
use threaded_db_api_server.Http.Head.{HttpRead, HttpRequest, Strtoull, max_body_size}
use threaded_db_api_server.Http.Head.Limits.{Answered, was_read, was_bad, was_large}
use threaded_db_api_server.Http.Limits.{WithinLimits, http_read_request-Answered}
use threaded_db_api_server.Http.{Socket}
use threaded_db_api_server.Http.Stream.{stream, Flows, read_whole}
use threaded_db_api_server.Http.Stream.Whole.{http_read_request-read_whole}
use threaded_db_api_server.Http.Stream.Post.{ReadsDecimal, post_text, read_whole-post_text}
use threaded_db_api_server.Server.{error_response, query, answer_read, server_handle_client_task}
use threaded_db_api_server.Server.Routes.{IsClientError, handle-request_body, handle-IsClientError}

-- A client that sends `POST /query` with its Content-Length and the object whose field "sql" is a
-- text, escaped by the JSON writer and within the limit of a body, in whatever pieces the bytes
-- arrive (`Flows`) and with whatever behind them, hands just that text to the database, if the
-- text has no control character but newline, carriage return and tab. Else it is answered with
-- status 400 and INVALID_JSON. `strtoull` is to read the decimal text of a number as that number
-- (`ReadsDecimal`).
pub client-post_text :
    (strtoull : Strtoull) (s : Socket) (sql more : Bytes)
    → ReadsDecimal strtoull
    → Flows s
    → stream s ≡ post_text (request_body sql) more
    → length (request_body sql) ≤ max_body_size
    → server_handle_client_task strtoull s
      ≡ (if all_readable sql then query sql else error_response 400 (codes "INVALID_JSON"))
unfolding server_handle_client_task answer_read
client-post_text strtoull s sql more reads flows sent small =
    ap answer_read (
      http_read_request-read_whole strtoull s flows
      ∙ ap (read_whole strtoull) sent
      ∙ read_whole-post_text strtoull (request_body sql) more reads small)
    ∙ handle-request_body sql

answer_read-IsClientError :
    {r : HttpRead HttpRequest} → Answered WithinLimits r → IsClientError (answer_read r)
unfolding answer_read
answer_read-IsClientError (was_read {got} h) = handle-IsClientError got
answer_read-IsClientError was_bad = inl refl
answer_read-IsClientError was_large = inr (inr (inr refl))

-- Every client, whatever its socket does, is handed to the database, or answered as healthy or
-- with one of the statuses 400, 404, 405 and 413, and never with 500: all loops over its bytes
-- end.
pub client-IsClientError :
    (strtoull : Strtoull) (s : Socket) → IsClientError (server_handle_client_task strtoull s)
unfolding server_handle_client_task
client-IsClientError strtoull s = answer_read-IsClientError (http_read_request-Answered strtoull s)
