-- ===== src/Server.antt =====
-- src/server.c: what a worker does with a client, up to `db_api_execute_sql`.
--
-- A response is its HTTP status with the error code of its body. Running the SQL text and sending
-- its reply is src/db_api.c, in module DbApi.
pub mod Routes
pub mod Client
pub mod Run
use threaded_db_api_server.Prelude.{ℕ, Bool, true, false, not, List, [], ◌∷◌, if◌then◌else◌}
use threaded_db_api_server.Prelude.Bytes.{Bytes, codes, str_eq, c_str}
use threaded_db_api_server.Http.Head
use threaded_db_api_server.Http.Head.{
  HttpRead, http_ok, bad_request, payload_too_large, HttpRequest, Strtoull,
}
use threaded_db_api_server.Http.{Socket, http_read_request}
use threaded_db_api_server.Json.{
  JsonFieldStatus, missing_field, invalid_json, internal_error, Json, field_ok, failed,
}
use threaded_db_api_server.Json.Field.{json_extract_string_field}

-- The health response, an error response, or a text for `db_api_execute_sql`.
pub data Routed : Type 0 where
  healthy : Routed
  error_response : ℕ → Bytes → Routed
  query : Bytes → Routed

pub route_field : Json Bytes → Routed
route_field (field_ok sql) = query sql
route_field (failed invalid_json) = error_response 400 (codes "INVALID_JSON")
route_field (failed missing_field) = error_response 400 (codes "MISSING_SQL_FIELD")
route_field (failed internal_error) = error_response 500 (codes "INTERNAL_ERROR")

-- `server_handle_client_task`, behind `http_read_request`
unfoldable pub handle_request : HttpRequest → Routed
unfolding route_field
handle_request req =
    if str_eq req.path (codes "/health")
    then if not (str_eq req.method (codes "GET"))
      then error_response 405 (codes "METHOD_NOT_ALLOWED")
      else healthy
    else if str_eq req.path (codes "/query")
    then if not (str_eq req.method (codes "POST"))
      then error_response 405 (codes "METHOD_NOT_ALLOWED")
      else route_field (json_extract_string_field (c_str req.body) (codes "sql"))
    else error_response 404 (codes "NOT_FOUND")

pub answer_read : HttpRead HttpRequest → Routed
unfolding handle_request
answer_read (http_ok req) = handle_request req
answer_read (Head.failed payload_too_large) = error_response 413 (codes "PAYLOAD_TOO_LARGE")
answer_read (Head.failed Head.internal_error) = error_response 500 (codes "INTERNAL_ERROR")
answer_read (Head.failed bad_request) = error_response 400 (codes "BAD_REQUEST")

unfoldable pub server_handle_client_task : Strtoull → Socket → Routed
unfolding answer_read http_read_request
server_handle_client_task strtoull s = answer_read (http_read_request strtoull s)
