-- ===== src/Schema/Columns.antt =====
-- src/schema.c: what a schema that was loaded is like.
use threaded_db_api_server.Prelude.{
  zero, suc, drop, length-drop, ◌++◌, Option-cases, ℕ, ◌+◌, ◌<◌, ◌≡◌, ap, Option, none, some, List,
  [], ◌∷◌, length, get_elem?, arith, Bool-cases, inl, inr,
}
use threaded_db_api_server.Storage.Lines.{read_line}
use threaded_db_api_server.Storage.Lines.Bounds.{read_line_bounds}
use threaded_db_api_server.Schema.{
  is_empty, has_column, take_column, read_columns, trim_in_place, finish_schema, load_file,
  load_table_schema, schema_path, TableSchema, find_from, schema_find_column_index,
}
use threaded_db_api_server.Prelude.Bytes.{Bytes, str_eq, str_eq_iff}
use threaded_db_api_server.Errors.{Result, ok, err}
use threaded_db_api_server.Errors.Outcome.{Returns, refuses, delivers, Ensures-if}
use threaded_db_api_server.Disk.{Disk}

-- The index that is found is that of the column, within the columns.
pub find_from-get_elem? :
    (cs : List Bytes) (name : Bytes) (i : ℕ) {j : ℕ}
    → find_from cs name i ≡ some j
    → (k : ℕ) × (j ≡ i + k) × (get_elem? cs k ≡ some name) × (k < length cs)
unfolding find_from
find_from-get_elem? [] name i e = cc
find_from-get_elem? (c ∷ cs) name i e = elim (Bool-cases (str_eq c name)) [
  | inl s ↦ (0, ground (arith), ap some ((str_eq_iff c name).0 s), omega arith)
  | inr s ↦
      let (k, p, q, r) = find_from-get_elem? cs name (i + 1) (rw s at e) in
      (suc k, omega (arith, p), q, omega (arith, r))
]

pub schema_find_column_index-bound :
    (schema : TableSchema) (name : Bytes) {j : ℕ}
    → schema_find_column_index schema name ≡ some j
    → j < length schema.columns
unfolding schema_find_column_index
schema_find_column_index-bound schema name e =
    let (k, p, q, r) = find_from-get_elem? schema.columns name 0 e in omega (arith, p, r)

finish_schema_name :
    (name : Bytes) (r : Option (Result (List Bytes))) {schema : TableSchema}
    → finish_schema name r ≡ ok schema
    → schema.table_name ≡ name
unfolding finish_schema
finish_schema_name name none e = cc
finish_schema_name name (some (err s)) e = cc
finish_schema_name name (some (ok [])) e = cc
finish_schema_name name (some (ok (c ∷ cs))) e = ground arith

load_file_name :
    (name : Bytes) (file : Option Bytes) {schema : TableSchema}
    → load_file name file ≡ ok schema
    → schema.table_name ≡ name
unfolding load_file
load_file_name name none e = cc
load_file_name name (some content) e = finish_schema_name name _ e

pub load_table_schema_name :
    (d : Disk) (db_dir name : Bytes) {schema : TableSchema}
    → load_table_schema d db_dir name ≡ ok schema
    → schema.table_name ≡ name
unfolding load_table_schema
load_table_schema_name d db_dir name e = elim (Bool-cases (d.denied (schema_path db_dir name))) [
  | inl p ↦ cc (rw p at e)
  | inr p ↦ load_file_name name _ (rw p at e)
]

-- A loop that ends, with a result that was returned.
data Ends : Option (Result (List Bytes)) → Type 0 where
  ends : {r : Result (List Bytes)} → Returns r → Ends (some r)

take_column-Ends :
    (line : Bytes) (columns : List Bytes) (continue : List Bytes → Option (Result (List Bytes)))
    → ((cs : List Bytes) → Ends (continue cs))
    → Ends (take_column line columns continue)
unfolding take_column
take_column-Ends line columns continue h = elim (Bool-cases (is_empty line)) [
  | inl b ↦ rw b (h columns)
  | inr b ↦ elim (Bool-cases (has_column columns line)) [
    | inl c ↦ rw (b, c) (ends (refuses tt))
    | inr c ↦ rw (b, c) (h (columns ++ (line ∷ [])))
  ]
]

-- The loop over the lines of a schema file ends, if it has a round for each byte and one more.
read_columns-Ends :
    (fuel : ℕ) (rest : Bytes) (columns : List Bytes)
    → length rest < fuel
    → Ends (read_columns fuel rest columns)
unfolding read_columns
read_columns-Ends zero rest columns h = absurd (omega arith)
read_columns-Ends (suc fuel) rest columns h = elim (Option-cases (read_line rest)) [
  | inl e ↦ rw (e, read_columns) (ends (delivers tt))
  | inr ((l, n), e) ↦
      let (more, within) = read_line_bounds rest e in
      rw (e, read_columns)
        (take_column-Ends (trim_in_place l) columns _
          (λ cs. read_columns-Ends fuel (drop n rest) cs (omega (arith, length-drop n rest))))
]

finish_schema-Returns :
    (name : Bytes) (o : Option (Result (List Bytes))) → Ends o → Returns (finish_schema name o)
unfolding finish_schema
finish_schema-Returns name none x = elim x [ ]
finish_schema-Returns name (some (err e)) (ends (refuses h)) = refuses h
finish_schema-Returns name (some (ok [])) (ends h) = refuses tt
finish_schema-Returns name (some (ok (c ∷ cs))) (ends h) = delivers tt

load_file-Returns : (name : Bytes) (file : Option Bytes) → Returns (load_file name file)
unfolding load_file
load_file-Returns name none = refuses tt
load_file-Returns name (some content) =
    finish_schema-Returns name _ (read_columns-Ends (suc (length content)) content [] (omega arith))

-- Loading a schema returns.
pub load_table_schema-Returns :
    (d : Disk) (db_dir name : Bytes) → Returns (load_table_schema d db_dir name)
unfolding load_table_schema
load_table_schema-Returns d db_dir name =
    Ensures-if (d.denied (schema_path db_dir name)) (λ _. refuses tt)
      (λ _. load_file-Returns name (d.file (schema_path db_dir name)))
