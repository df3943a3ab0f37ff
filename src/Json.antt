-- ===== src/Json.antt =====
-- src/json_writer.c and src/json_parser.c: a string written as JSON, and the string field of an
-- object read.
--
-- `*cursor` is the list of the bytes from the cursor on, and a function that moves it returns what is
-- left. Memory does not run out, no pointer is NULL, and messages are left out.

pub mod Field
pub mod RoundTrip
pub mod Buffer
pub mod CString
use threaded_db_api_server.Prelude.{
  ℕ, ◌+◌, ◌-◌, ◌/◌, ◌%◌, Bool, true, false, ◌&&◌, ◌||◌, Option, none, some, List, [], ◌∷◌, ◌++◌,
  ltb, leb, ◌==◌, if◌then◌else◌,
}
use threaded_db_api_server.Prelude.Bytes.{Bytes, codes}

-- a digit of "%04x"
abbrev pub hex_digit : ℕ → ℕ
hex_digit n = if ltb n 10 then b'0' + n else b'a' + (n - 10)

-- The switch on one byte, in front of what follows.
abbrev pub escape_byte : ℕ → Bytes → Bytes
escape_byte c rest =
    if c == b'"'
    then b'\\' ∷ b'"' ∷ rest
    else if c == b'\\'
    then b'\\' ∷ b'\\' ∷ rest
    else if c == b'\n'
    then b'\\' ∷ b'n' ∷ rest
    else if c == b'\r'
    then b'\\' ∷ b'r' ∷ rest
    else if c == b'\t'
    then b'\\' ∷ b't' ∷ rest
    else if ltb c 32
    then b'\\' ∷ b'u' ∷ b'0' ∷ b'0' ∷ hex_digit (c / 16) ∷ hex_digit (c % 16) ∷ rest
    else c ∷ rest

unfoldable pub escape_bytes : Bytes → Bytes → Bytes
escape_bytes [] rest = rest
escape_bytes (c ∷ cs) rest = escape_byte c (escape_bytes cs rest)

-- The buffer with the string behind its bytes.
unfoldable pub json_append_escaped_string : Bytes → Bytes → Bytes
unfolding escape_bytes
json_append_escaped_string buf text = buf ++ b'"' ∷ escape_bytes text (b'"' ∷ [])

-- `JsonFieldStatus` but for JSON_FIELD_OK
pub data JsonFieldStatus : Type 0 where
  missing_field invalid_json internal_error : JsonFieldStatus

-- JSON_FIELD_OK with what was read, or another status
pub data Json {ℓ} (A : Type ℓ) : Type ℓ where
  field_ok : A → Json A
  failed : JsonFieldStatus → Json A

abbrev pub then_json {ℓ κ} : {A : Type ℓ} {B : Type κ} → Json A → (A → Json B) → Json B
then_json (field_ok a) f = f a
then_json (failed e) f = failed e

abbrev pub unescape : ℕ → Option ℕ
unescape c =
    if c == b'"' || c == b'\\'
    then some c
    else if c == b'n'
    then some b'\n'
    else if c == b'r'
    then some b'\r'
    else if c == b't'
    then some b'\t'
    else none

-- A text, and the bytes where its reading stopped.
abbrev pub Read : Type 0
Read = Json (Bytes × Bytes)

abbrev pub put_byte : ℕ → Read → Read
put_byte c r = then_json r λ s. field_ok (c ∷ s.0, s.1)

abbrev pub put_escaped : Option ℕ → Read → Read
put_escaped none r = failed invalid_json
put_escaped (some c) r = put_byte c r

-- The loop of `parse_json_string`, behind the quote that opens the string.
unfoldable pub string_body : Bytes → Read
string_body [] = failed invalid_json
string_body (c ∷ []) = if c == b'"' then field_ok ([], []) else failed invalid_json
string_body (c ∷ d ∷ cs) =
    let behind_escape = string_body cs in
    let rest = string_body (d ∷ cs) in
    if c == b'"'
    then field_ok ([], d ∷ cs)
    else if ltb c 32
    then failed invalid_json
    else if c == b'\\'
    then put_escaped (unescape d) behind_escape
    else put_byte c rest

unfoldable pub parse_json_string : Bytes → Read
parse_json_string [] = failed invalid_json
parse_json_string (c ∷ cs) =
    let body = string_body cs in if c == b'"' then body else failed invalid_json
