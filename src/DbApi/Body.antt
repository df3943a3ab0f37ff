-- ===== src/DbApi/Body.antt =====
-- src/db_api.c: the JSON text of a reply.
--
-- A buffer is its bytes, and appending to it, which Json.Buffer models with the capacity, is `++`.
-- Memory does not run out and no pointer is NULL. The message of an error is
-- an argument, as the rest of the model leaves messages out. A row is printed up to the number of
-- columns: behind its last value the source reads out of bounds and the model prints "".
pub mod Reads
use threaded_db_api_server.Prelude.{
  ℕ, zero, suc, Bool, true, false, List, [], ◌∷◌, ◌++◌, length, get_or, if◌then◌else◌, ltb,
}
use threaded_db_api_server.Prelude.Bytes.{Bytes, codes}
use threaded_db_api_server.Ids.{print_u64}
use threaded_db_api_server.Json.{json_append_escaped_string}
use threaded_db_api_server.Storage.Fields.{Row}
use threaded_db_api_server.Executor.{
  QueryResult, ExecResultType, result_insert, result_select, ExecResult,
}
use threaded_db_api_server.DbApi.{Reply, succeeded, failed}

-- "%zu" of a 64-bit size
append_size_value : Bytes → ℕ → Bytes
append_size_value buf value = buf ++ print_u64 value

append_u64_value : Bytes → ℕ → Bytes
append_u64_value buf value = buf ++ print_u64 value

append_bool_value : Bytes → Bool → Bytes
append_bool_value buf value = buf ++ (if value then codes "true" else codes "false")

-- `if (i > 0U) json_append_char(buf, ',')`
abbrev append_comma : Bytes → ℕ → Bytes
append_comma buf i = if ltb 0 i then buf ++ codes "," else buf

column_loop : Bytes → ℕ → List Bytes → Bytes
column_loop buf i [] = buf
column_loop buf i (column ∷ columns) =
    column_loop (json_append_escaped_string (append_comma buf i) column) (suc i) columns

append_columns_json : Bytes → QueryResult → Bytes
unfolding column_loop
append_columns_json buf query_result =
    column_loop (buf ++ codes "[") 0 query_result.columns ++ codes "]"

-- The inner loop, with the number of columns that are left.
value_loop : Bytes → ℕ → ℕ → Row → Bytes
value_loop buf column_index zero row = buf
value_loop buf column_index (suc left) row =
    value_loop
      (json_append_escaped_string (append_comma buf column_index) (get_or row column_index []))
      (suc column_index) left row

row_loop : Bytes → ℕ → ℕ → List Row → Bytes
unfolding value_loop
row_loop buf column_count row_index [] = buf
row_loop buf column_count row_index (row ∷ rows) =
    let opened = append_comma buf row_index ++ codes "[" in
    row_loop (value_loop opened 0 column_count row ++ codes "]") column_count (suc row_index) rows

append_rows_json : Bytes → QueryResult → Bytes
unfolding row_loop
append_rows_json buf query_result =
    row_loop (buf ++ codes "[") (length query_result.columns) 0 query_result.rows ++ codes "]"

select_json : ExecResult → Bytes
unfolding append_bool_value append_size_value append_columns_json append_rows_json
select_json result =
    let query_result = result.query_result in
    let opened = (codes "{\"success\":true,\"type\":\"select\",\"used_index\":") in
    let used = append_bool_value opened result.used_index ++ codes ",\"row_count\":" in
    let counted = append_size_value used (length query_result.rows) ++ codes ",\"columns\":" in
    let named = append_columns_json counted query_result ++ codes ",\"rows\":" in
    append_rows_json named query_result ++ codes "}"

insert_json : ExecResult → Bytes
unfolding append_size_value append_u64_value
insert_json result =
    let opened = (codes "{\"success\":true,\"type\":\"insert\",\"affected_rows\":") in
    let counted = append_size_value opened result.affected_rows in
    let generated = append_u64_value (counted ++ codes ",\"generated_id\":") result.generated_id in
    (if result.has_generated_id then generated else counted) ++ codes "}"

body_of : ExecResultType → ExecResult → Bytes
unfolding select_json insert_json
body_of result_select result = select_json result
body_of result_insert result = insert_json result

unfoldable pub make_success_json : ExecResult → Bytes
unfolding body_of
make_success_json result = body_of result.result_type result

unfoldable pub make_error_json : Bytes → Bytes → Bytes
make_error_json error_code message =
    let opened = (codes "{\"success\":false,\"error_code\":") in
    let coded = json_append_escaped_string opened error_code ++ codes ",\"message\":" in
    json_append_escaped_string coded message ++ codes "}"

-- `*out_http_status` and `*out_json`, for the message that an error has.
unfoldable pub reply_json : Bytes → Reply → ℕ × Bytes
unfolding make_success_json make_error_json
reply_json message (succeeded result) = (200, make_success_json result)
reply_json message (failed status http_status error_code) =
    (http_status, make_error_json error_code message)
