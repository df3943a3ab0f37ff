-- ===== src/Storage/Fields.antt =====
-- src/storage.c: a row as one line of text: escaping, splitting at `|`, and the number of fields.
--
-- A text is the list of its bytes without the NUL; the growing of buffers is left out, as memory
-- does not run out.
pub mod RoundTrip
pub mod Text
use mathlib.Core.Option
use threaded_db_api_server.Prelude.{
  ℕ, suc, ◌-◌, Bool, true, false, Option, none, some, List, [], ◌∷◌, ◌++◌, ltb, ◌==◌, if◌then◌else◌,
  ◌>>=◌, length, take, replicate,
}
use threaded_db_api_server.Prelude.Bytes.{Bytes}

-- `Row`: `values`, whose length is `value_count`
abbrev pub Row : Type 0
Row = List Bytes

pub escape_byte : ℕ → Bytes
escape_byte c =
    if c == b'\\'
    then b'\\' ∷ b'\\' ∷ []
    else if c == b'|'
    then b'\\' ∷ b'|' ∷ []
    else if c == b'\n'
    then b'\\' ∷ b'n' ∷ []
    else c ∷ []

pub escape_field : Bytes → Bytes
escape_field [] = []
escape_field (c ∷ cs) = escape_byte c ++ escape_field cs

-- the byte behind a backslash
pub unescape_byte : ℕ → Option ℕ
unescape_byte c =
    if c == b'\\'
    then some b'\\'
    else if c == b'|'
    then some b'|'
    else if c == b'n'
    then some b'\n'
    else none

-- `none` is NULL: a backslash at the end, or before another byte
pub unescape_field : Bytes → Option Bytes
unfolding unescape_byte
unescape_field [] = some []
unescape_field (c ∷ []) = if c == b'\\' then none else some (c ∷ [])
unescape_field (c ∷ d ∷ cs) =
    let escaped = unescape_byte d >>= λ e. Option.map (λ r. e ∷ r) (unescape_field cs) in
    let plain = Option.map (λ r. c ∷ r) (unescape_field (d ∷ cs)) in
    if c == b'\\' then escaped else plain

-- the variables of `split_escaped_row`
pub record Split : Type 0 where
  pub fields : List Bytes
  pub current_raw : Bytes
  pub escape_pending : Bool

-- `unescape_field` and `push_field`
pub finish_field : Split → Option (List Bytes)
unfolding unescape_field
finish_field s = Option.map (λ v. s.fields ++ (v ∷ [])) (unescape_field s.current_raw)

-- the body of its loop
pub split_step : Split → ℕ → Option Split
unfolding finish_field
split_step s c =
    if s.escape_pending
    then some (record s { current_raw = s.current_raw ++ (c ∷ []); escape_pending = false })
    else if c == b'\\'
    then some (record s { current_raw = s.current_raw ++ (c ∷ []); escape_pending = true })
    else if c == b'|'
    then Option.map (λ fs. record s { fields = fs; current_raw = [] }) (finish_field s)
    else some (record s { current_raw = s.current_raw ++ (c ∷ []) })

-- the loop and what stands behind it
pub split_from : Split → Bytes → Option (List Bytes)
unfolding split_step
split_from s [] = if s.escape_pending then none else finish_field s
split_from s (c ∷ cs) = split_step s c >>= λ s'. split_from s' cs

pub split_escaped_row : Bytes → Option (List Bytes)
unfolding split_from
split_escaped_row line =
    split_from (record { fields = []; current_raw = []; escape_pending = false }) line

-- too many fields are cut, missing ones are empty
pub normalize_field_count : List Bytes → ℕ → List Bytes
normalize_field_count fields expected =
    if ltb expected (length fields)
    then take expected fields
    else fields ++ replicate (expected - length fields) []

pub parse_line_into_row : Bytes → ℕ → Option Row
unfolding split_escaped_row normalize_field_count
parse_line_into_row line expected =
    Option.map (λ fields. normalize_field_count fields expected) (split_escaped_row line)

-- the values as `append_row_to_table_with_offset` writes them, from the index `i` on
pub write_values : ℕ → Row → Bytes
unfolding escape_field
write_values i [] = []
write_values i (v ∷ vs) =
    (if ltb 0 i then b'|' ∷ [] else []) ++ (escape_field v ++ write_values (suc i) vs)
