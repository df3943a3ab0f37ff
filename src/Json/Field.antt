-- ===== src/Json/Field.antt =====
-- src/json_parser.c: the string field of an object.
pub mod Ends
use threaded_db_api_server.Prelude.{
  ℕ, zero, suc, ◌≡◌, Bool, true, false, ◌&&◌, ◌||◌, Option, none, some, List, [], ◌∷◌, ◌++◌, ◌==◌,
  if◌then◌else◌, length,
}
use threaded_db_api_server.Prelude.Bytes.{Bytes, codes, is_digit, str_eq}
use threaded_db_api_server.Json.{
  JsonFieldStatus, missing_field, invalid_json, internal_error, Json, field_ok, failed, then_json,
  parse_json_string,
}

unfoldable pub skip_whitespace : Bytes → Bytes
skip_whitespace [] = []
skip_whitespace (c ∷ cs) =
    let rest = skip_whitespace cs in
    if c == b' ' || c == b'\t' || c == b'\n' || c == b'\r' then rest else c ∷ cs

-- `**cursor == c`, for a byte that is not NUL
abbrev pub starts : ℕ → Bytes → Bool
starts c [] = false
starts c (d ∷ cs) = d == c

-- `*cursor += 1`
abbrev pub advance : Bytes → Bytes
advance [] = []
advance (c ∷ cs) = cs

-- `strncmp(*cursor, word, n) == 0`, with the bytes behind the word
strip : Bytes → Bytes → Option Bytes
strip [] cs = some cs
strip (w ∷ word) [] = none
strip (w ∷ word) (c ∷ cs) = let rest = strip word cs in if w == c then rest else none

skip_digits : Bytes → Bytes
skip_digits [] = []
skip_digits (c ∷ cs) = let rest = skip_digits cs in if is_digit c then rest else c ∷ cs

-- One digit or more.
digits : Bytes → Json Bytes
unfolding skip_digits
digits [] = failed invalid_json
digits (c ∷ cs) = if is_digit c then field_ok (skip_digits cs) else failed invalid_json

skip_sign : Bytes → Bytes
skip_sign cs = if starts b'+' cs || starts b'-' cs then advance cs else cs

fraction : Bytes → Json Bytes
unfolding digits
fraction cs = if starts b'.' cs then digits (advance cs) else field_ok cs

exponent : Bytes → Json Bytes
unfolding digits skip_sign
exponent cs =
    if starts b'e' cs || starts b'E' cs then digits (skip_sign (advance cs)) else field_ok cs

-- The end of `consume_json_value`. It has passed a digit, so that the cursor is never at its start.
pub consume_number : Bytes → Json Bytes
unfolding fraction exponent
consume_number cs =
    then_json (digits (if starts b'-' cs then advance cs else cs))
      λ r. then_json (fraction r) λ s. exponent s

or_word : Option Bytes → Json Bytes → Json Bytes
or_word none other = other
or_word (some rest) other = field_ok rest

unfoldable pub consume_json_value : Bytes → Json Bytes
unfolding consume_number or_word strip
consume_json_value cs =
    if starts b'"' cs
    then then_json (parse_json_string cs) (λ s. field_ok s.1)
    else if starts b'{' cs || starts b'[' cs
    then failed invalid_json
    else or_word (strip (codes "true") cs)
        (or_word (strip (codes "false") cs) (or_word (strip (codes "null") cs) (consume_number cs)))

-- The value found first, if one was found, and the bytes behind what was read.
abbrev pub Found : Type 0
Found = Option Bytes × Bytes

keep_first : Option Bytes → Bytes → Option Bytes
keep_first none value = some value
keep_first (some found) value = some found

-- The value of the field, or one to skip.
pub read_value : Bool → Option Bytes → Bytes → Json Found
unfolding keep_first
read_value wanted found cs =
    if wanted
    then if starts b'"' cs
      then then_json (parse_json_string cs) (λ s. field_ok (keep_first found s.0, s.1))
      else then_json (consume_json_value cs) (λ s. failed missing_field)
    else then_json (consume_json_value cs) (λ s. field_ok (found, s))

-- Behind the key.
pub read_colon : Bool → Option Bytes → Bytes → Json Found
unfolding read_value
read_colon wanted found cs =
    if starts b':' cs
    then read_value wanted found (skip_whitespace (advance cs))
    else failed invalid_json

-- One turn of the loop, up to the comma or the brace behind the entry.
unfoldable pub read_entry : Bytes → Option Bytes → Bytes → Json Found
unfolding read_colon skip_whitespace
read_entry field_name found cs = then_json (parse_json_string (skip_whitespace cs)) λ key.
    then_json (read_colon (str_eq key.0 field_name) found (skip_whitespace key.1))
      λ s. field_ok (s.0, skip_whitespace s.1)

-- Behind the object.
pub finish_object : Option Bytes → Bytes → Json Bytes
finish_object found (c ∷ cs) = failed invalid_json
finish_object none [] = failed missing_field
finish_object (some value) [] = field_ok value

-- The loop, on fuel: without fuel it fails as the reader never does.
unfoldable pub read_entries : ℕ → Bytes → Option Bytes → Bytes → Json Bytes
unfolding finish_object
read_entries zero field_name found cs = failed internal_error
read_entries (suc fuel) field_name found cs = then_json (read_entry field_name found cs) λ s.
    let more = read_entries fuel field_name s.0 (advance s.1) in
    if starts b',' s.1
    then more
    else if starts b'}' s.1
    then finish_object s.0 (skip_whitespace (advance s.1))
    else failed invalid_json

unfoldable pub json_extract_string_field : Bytes → Bytes → Json Bytes
json_extract_string_field json field_name =
    let object = skip_whitespace json in
    let entries = skip_whitespace (advance object) in
    if starts b'{' object
    then if starts b'}' entries
      then failed missing_field
      else read_entries (suc (length json)) field_name none entries
    else failed invalid_json
