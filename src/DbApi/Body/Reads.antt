-- ===== src/DbApi/Body/Reads.antt =====
-- src/db_api.c: the body of an error, read by src/json_parser.c.
use threaded_db_api_server.Prelude.{
  ℕ, suc, ◌≡◌, refl, ap, ◌∙◌, true, false, none, some, [], ◌∷◌, ◌++◌,
}
use threaded_db_api_server.Prelude.Bytes.{Bytes, codes, str_eq}
use threaded_db_api_server.Json.{
  json_append_escaped_string, escape_bytes, field_ok, string_body, parse_json_string,
}
use threaded_db_api_server.Json.Field.{
  json_extract_string_field, read_entries, read_entry, skip_whitespace, consume_json_value,
}
use threaded_db_api_server.Json.RoundTrip.{
  all_readable, string_body-escape_bytes, escape_bytes-append,
}
use threaded_db_api_server.DbApi.Body.{make_error_json}

message_entry : Bytes → Bytes
message_entry message = codes "\"message\":\"" ++ escape_bytes message (codes "\"}")

code_entry : Bytes → Bytes → Bytes
unfolding message_entry
code_entry error_code message =
    codes "\"error_code\":\"" ++ escape_bytes error_code (b'"' ∷ b',' ∷ message_entry message)

entries_of : Bytes → Bytes → Bytes
unfolding code_entry
entries_of error_code message = codes "\"success\":false," ++ code_entry error_code message

make_error_json_lem :
    (error_code message : Bytes)
    → make_error_json error_code message ≡ b'{' ∷ entries_of error_code message
unfolding make_error_json json_append_escaped_string entries_of code_entry message_entry
make_error_json_lem error_code message =
    rw
      (
        escape_bytes-append error_code,
        escape_bytes-append error_code,
        escape_bytes-append error_code,
        escape_bytes-append message (b'"' ∷ []),
      )
      refl

module _ (error_code message : Bytes) where
  skip_success :
      (fuel : ℕ) (field_name : Bytes)
      → str_eq (codes "success") field_name ≡ false
      → read_entries (suc fuel) field_name none (entries_of error_code message)
        ≡ read_entries fuel field_name none (code_entry error_code message)
  unfolding read_entries read_entry skip_whitespace parse_json_string string_body consume_json_value
      entries_of code_entry
  skip_success fuel field_name h = rw h refl

  read_code :
      (fuel : ℕ)
      → all_readable error_code ≡ true
      → read_entries (suc fuel) (codes "error_code") none (code_entry error_code message)
        ≡ read_entries fuel (codes "error_code") (some error_code) (message_entry message)
  unfolding read_entries read_entry skip_whitespace parse_json_string string_body str_eq code_entry
      message_entry
  read_code fuel h = rw (string_body-escape_bytes error_code (b',' ∷ message_entry message), h) refl

  skip_code :
      (fuel : ℕ)
      → all_readable error_code ≡ true
      → read_entries (suc fuel) (codes "message") none (code_entry error_code message)
        ≡ read_entries fuel (codes "message") none (message_entry message)
  unfolding read_entries read_entry skip_whitespace parse_json_string string_body str_eq
      consume_json_value code_entry message_entry
  skip_code fuel h = rw (string_body-escape_bytes error_code (b',' ∷ message_entry message), h) refl

  skip_message :
      (fuel : ℕ)
      → all_readable message ≡ true
      → read_entries (suc fuel) (codes "error_code") (some error_code) (message_entry message)
        ≡ field_ok error_code
  unfolding read_entries read_entry skip_whitespace parse_json_string string_body str_eq
      consume_json_value message_entry
  skip_message fuel h = rw (string_body-escape_bytes message (codes "}"), h) refl

  read_message :
      (fuel : ℕ)
      → all_readable message ≡ true
      → read_entries (suc fuel) (codes "message") none (message_entry message) ≡ field_ok message
  unfolding read_entries read_entry skip_whitespace parse_json_string string_body str_eq
      message_entry
  read_message fuel h = rw (string_body-escape_bytes message (codes "}"), h) refl

-- Reading a field of the object is reading its entries, with fuel for three of them and more.
extract_lem :
    (error_code message field_name text : Bytes)
    → ((fuel : ℕ)
        → read_entries (suc (suc (suc fuel))) field_name none (entries_of error_code message)
          ≡ field_ok text)
    → json_extract_string_field (make_error_json error_code message) field_name ≡ field_ok text
unfolding json_extract_string_field skip_whitespace entries_of
extract_lem error_code message field_name text h =
    ap (λ b. json_extract_string_field b field_name) (make_error_json_lem error_code message) ∙ h _

-- From the JSON body of an error, the JSON reader of the program takes back both the error code
-- and the message, if neither has a control character but newline, carriage return and tab.
pub json_extract-make_error_json :
    (error_code message : Bytes)
    → all_readable error_code ≡ true
    → all_readable message ≡ true
    → (json_extract_string_field (make_error_json error_code message) (codes "error_code")
        ≡ field_ok error_code)
      × (json_extract_string_field (make_error_json error_code message) (codes "message")
          ≡ field_ok message)
unfolding str_eq
json_extract-make_error_json error_code message h k = (
  extract_lem error_code message (codes "error_code") error_code λ fuel.
      skip_success error_code message _ _ refl
      ∙ read_code error_code message _ h
      ∙ skip_message error_code message _ k,
  extract_lem error_code message (codes "message") message λ fuel.
      skip_success error_code message _ _ refl
      ∙ skip_code error_code message _ h
      ∙ read_message error_code message _ k,
)
