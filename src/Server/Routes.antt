-- ===== src/Server/Routes.antt =====
-- src/server.c: the routes of its requests.
use threaded_db_api_server.Prelude.{
  ◌≡◌, ◌≢◌, ◌⊎◌, refl, ap, inl, inr, ◌∙◌, Bool, true, false, not, if◌then◌else◌,
}
use threaded_db_api_server.Prelude.Bytes.{Bytes, codes, str_eq, c_str}
use threaded_db_api_server.Json.{
  missing_field, invalid_json, internal_error, Json, field_ok, failed,
}
use threaded_db_api_server.Json.Field.Ends.{json_extract-ends}
use threaded_db_api_server.Json.RoundTrip.{all_readable, request_body, json_extract-request_body}
use threaded_db_api_server.Json.Field.{json_extract_string_field}
use threaded_db_api_server.Json.CString.{c_str-request_body}
use threaded_db_api_server.Http.Head.{HttpRequest}
use threaded_db_api_server.Http.Stream.Post.{post_query}
use threaded_db_api_server.Server.{
  Routed, healthy, error_response, query, route_field, handle_request,
}

route-if :
    (b : Bool) (sql : Bytes)
    → route_field (if b then field_ok sql else failed invalid_json)
      ≡ (if b then query sql else error_response 400 (codes "INVALID_JSON"))
unfolding route_field
route-if true sql = refl
route-if false sql = refl

-- A POST to /query with the object whose field "sql" is a text, escaped by the JSON writer, hands
-- just that text to the database, if the text has no control character but newline, carriage
-- return and tab. Else it is answered with status 400 and INVALID_JSON.
pub handle-request_body :
    (sql : Bytes)
    → handle_request (post_query (request_body sql))
      ≡ (if all_readable sql then query sql else error_response 400 (codes "INVALID_JSON"))
unfolding handle_request str_eq
handle-request_body sql =
    ap (λ b. route_field (json_extract_string_field b (codes "sql"))) (c_str-request_body sql)
    ∙ ap route_field (json_extract-request_body sql)
    ∙ route-if (all_readable sql) sql

-- An error of the request, and never one of the server.
abbrev pub IsClientError : Routed → Type 0
IsClientError healthy = Unit
IsClientError (query sql) = Unit
IsClientError (error_response status code) =
    (status ≡ 400) ⊎ ((status ≡ 404) ⊎ ((status ≡ 405) ⊎ (status ≡ 413)))

IsClientError-if :
    (b : Bool) (r s : Routed)
    → IsClientError r
    → IsClientError s
    → IsClientError (if b then r else s)
IsClientError-if true r s hr hs = hr
IsClientError-if false r s hr hs = hs

route_field-IsClientError :
    (r : Json Bytes) → r ≢ failed internal_error → IsClientError (route_field r)
unfolding route_field
route_field-IsClientError (field_ok sql) h = tt
route_field-IsClientError (failed invalid_json) h = inl refl
route_field-IsClientError (failed missing_field) h = inl refl
route_field-IsClientError (failed internal_error) h = absurd (h refl)

pub handle-IsClientError : (req : HttpRequest) → IsClientError (handle_request req)
unfolding handle_request
handle-IsClientError req =
    IsClientError-if (str_eq req.path (codes "/health")) _ _
      (IsClientError-if (not (str_eq req.method (codes "GET"))) _ _ (inr (inr (inl refl))) tt)
      (IsClientError-if (str_eq req.path (codes "/query")) _ _
        (IsClientError-if (not (str_eq req.method (codes "POST"))) _ _ (inr (inr (inl refl)))
          (route_field-IsClientError _ (json_extract-ends (c_str req.body) (codes "sql"))))
        (inr (inl refl)))
