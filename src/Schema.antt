-- ===== src/Schema.antt =====
-- src/schema.c, include/schema.h: the columns of a table, read from its `.schema` file.
pub mod Columns
use threaded_db_api_server.Prelude.{
  ℕ, zero, suc, ◌+◌, Bool, true, false, ◌&&◌, Option, none, some, List, [], ◌∷◌, ◌++◌,
  if◌then◌else◌, length, drop,
}
use threaded_db_api_server.Prelude.Bytes.{Bytes, codes, is_space, str_eq}
use threaded_db_api_server.Errors.{Status, schema_error, out_of_rounds, Result, ok, err}
use threaded_db_api_server.Disk.{Disk, build_table_path}
use threaded_db_api_server.Storage.Lines.{read_line}

-- `TableSchema`; `column_count` is the length
pub record TableSchema : Type 0 where
  pub table_name : Bytes
  pub columns : List Bytes

abbrev is_empty : Bytes → Bool
is_empty [] = true
is_empty (c ∷ cs) = false

pub trim_start : Bytes → Bytes
trim_start [] = []
trim_start (c ∷ cs) = let rest = trim_start cs in if is_space c then rest else c ∷ cs

pub trim_end : Bytes → Bytes
trim_end [] = []
trim_end (c ∷ cs) = let rest = trim_end cs in if is_space c && is_empty rest then [] else c ∷ rest

unfoldable pub trim_in_place : Bytes → Bytes
unfolding trim_start trim_end
trim_in_place text = trim_end (trim_start text)

-- the loop of `schema_find_column_index`, at the index `i`; `none` is -1
unfoldable pub find_from : List Bytes → Bytes → ℕ → Option ℕ
find_from [] column_name i = none
find_from (c ∷ cs) column_name i =
    let rest = find_from cs column_name (i + 1) in if str_eq c column_name then some i else rest

unfoldable pub schema_find_column_index : TableSchema → Bytes → Option ℕ
unfolding find_from
schema_find_column_index schema column_name = find_from schema.columns column_name 0

-- the test for a duplicate column
pub has_column : List Bytes → Bytes → Bool
has_column [] line = false
has_column (c ∷ cs) line = let rest = has_column cs line in if str_eq c line then true else rest

-- what a round does with a trimmed line; the other rounds follow on the columns
pub take_column :
    Bytes → List Bytes → (List Bytes → Option (Result (List Bytes))) → Option (Result (List Bytes))
unfolding has_column
take_column line columns continue =
    if is_empty line
    then continue columns
    else if has_column columns line
    then some (err schema_error)
    else continue (columns ++ (line ∷ []))

-- the loop over the lines, at most `fuel` rounds, where `none` is running out of them
pub read_columns : ℕ → Bytes → List Bytes → Option (Result (List Bytes))
unfolding take_column trim_in_place
read_columns zero rest columns = none
read_columns (suc fuel) rest columns = elim (read_line rest) [
  | none ↦ some (ok columns)
  | some (line, n) ↦
      take_column (trim_in_place line) columns (λ cs. read_columns fuel (drop n rest) cs)
]

-- the end of `load_table_schema`
pub finish_schema : Bytes → Option (Result (List Bytes)) → Result TableSchema
finish_schema table_name none = err out_of_rounds
finish_schema table_name (some (err e)) = err e
finish_schema table_name (some (ok [])) = err schema_error
finish_schema table_name (some (ok (c ∷ cs))) =
    ok (record { table_name = table_name; columns = c ∷ cs })

abbrev pub schema_path : Bytes → Bytes → Bytes
schema_path db_dir table_name = build_table_path db_dir table_name (codes ".schema")

-- the file found, or not there; one round for each byte and one more are enough
pub load_file : Bytes → Option Bytes → Result TableSchema
unfolding read_columns finish_schema
load_file table_name none = err schema_error
load_file table_name (some content) =
    finish_schema table_name (read_columns (suc (length content)) content [])

-- a status that is not 0 is STATUS_SCHEMA_ERROR for all callers
unfoldable pub load_table_schema : Disk → Bytes → Bytes → Result TableSchema
unfolding load_file
load_table_schema d db_dir table_name =
    let path = schema_path db_dir table_name in
    if d.denied path then err schema_error else load_file table_name (d.file path)

-- The NULL strings of what is freed are empty ones.
unfoldable pub free_table_schema : TableSchema → TableSchema
free_table_schema schema = record { table_name = []; columns = [] }
