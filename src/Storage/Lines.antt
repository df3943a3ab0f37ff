-- ===== src/Storage/Lines.antt =====
-- src/storage.c, and the same function of src/schema.c: `read_line`.
--
-- `fgetc` is a step along the bytes that stand behind the file position; a read does not fail.
pub mod Bounds
pub mod Extend
use threaded_db_api_server.Prelude.{ℕ, suc, Option, none, some, List, [], ◌∷◌, ◌==◌, if◌then◌else◌}
use threaded_db_api_server.Prelude.Bytes.{Bytes, c_str}

-- the bytes that the loop stores, up to the newline or the end
pub line_bytes : Bytes → Bytes
line_bytes [] = []
line_bytes (c ∷ cs) = let rest = line_bytes cs in if c == b'\n' then [] else c ∷ rest

-- how far the loop moves the file position: over the newline, if there is one
pub line_size : Bytes → ℕ
line_size [] = 0
line_size (c ∷ cs) = let rest = line_size cs in if c == b'\n' then 1 else suc rest

-- `if (length > 0U && buffer[length - 1U] == '\r') length--`
unfoldable pub strip_cr : Bytes → Bytes
strip_cr [] = []
strip_cr (c ∷ []) = if c == b'\r' then [] else c ∷ []
strip_cr (c ∷ d ∷ cs) = c ∷ strip_cr (d ∷ cs)

-- `none` is the result 0, at the end of the file; else the line as a C string, and how far the
-- file position moves
unfoldable pub read_line : Bytes → Option (Bytes × ℕ)
unfolding line_bytes line_size strip_cr c_str
read_line [] = none
read_line (c ∷ cs) = some (c_str (strip_cr (line_bytes (c ∷ cs))), line_size (c ∷ cs))
