-- ===== src/Executor/Insert/Faults.antt =====
-- src/executor.c: the status of a refused INSERT.
use threaded_db_api_server.Prelude.{
  ℕ, ◌≡◌, Bool, true, false, List, [], ◌∷◌, length, set, replicate, arith, Option-cases, inl, inr,
}
use threaded_db_api_server.Prelude.Bytes.{Bytes}
use threaded_db_api_server.Errors.{Status, exec_error, err}
use threaded_db_api_server.Ids.{print_u64}
use threaded_db_api_server.Schema.{TableSchema, schema_find_column_index}
use threaded_db_api_server.Storage.Fields.{Row}
use threaded_db_api_server.Executor.{LiteralValue, InsertStatement}
use threaded_db_api_server.Executor.Insert.{
  check_columns, validate_insert_columns_for_auto_id, place_columns,
  build_insert_row_with_generated_id,
}

-- A statement at fault is refused with STATUS_EXEC_ERROR.
check_columns-err :
    (schema : TableSchema) (i : ℕ) (cs : List Bytes) (seen : List Bool) {e : Status}
    → check_columns schema i cs seen ≡ err e
    → e ≡ exec_error
unfolding check_columns
check_columns-err schema i [] seen q = cc
check_columns-err schema i (c ∷ cs) seen {e = e} q =
    elim (Option-cases (schema_find_column_index schema c)) [
      | inl f ↦ cc (rw (f, check_columns) at q)
      | inr (j, f) ↦
          let later = check_columns-err schema i cs (set seen j true) {e = e} in
          let stuck = rw (f, check_columns) at q in ground (arith, later)
    ]

pub validate-err :
    (schema : TableSchema) (i : ℕ) (stmt : InsertStatement) {e : Status}
    → validate_insert_columns_for_auto_id schema i stmt ≡ err e
    → e ≡ exec_error
unfolding validate_insert_columns_for_auto_id
validate-err schema i stmt {e = e} q =
    let later =
      check_columns-err schema i stmt.columns (replicate (length schema.columns) false) {e = e} in
    ground (arith, later, q)

place_columns-err :
    (schema : TableSchema) (i : ℕ) (cs : List Bytes) (vs : List LiteralValue) (row : Row)
    {e : Status}
    → place_columns schema i cs vs row ≡ err e
    → e ≡ exec_error
unfolding place_columns
place_columns-err schema i [] vs row q = cc
place_columns-err schema i (c ∷ cs) [] row q = cc
place_columns-err schema i (c ∷ cs) (v ∷ vs) row {e = e} q =
    elim (Option-cases (schema_find_column_index schema c)) [
      | inl f ↦ cc (rw (f, place_columns) at q)
      | inr (j, f) ↦
          let later = place_columns-err schema i cs vs (set row j v.text) {e = e} in
          let stuck = rw (f, place_columns) at q in ground (arith, later)
    ]

pub build-err :
    (schema : TableSchema) (i : ℕ) (stmt : InsertStatement) (id : ℕ) {e : Status}
    → build_insert_row_with_generated_id schema i stmt id ≡ err e
    → e ≡ exec_error
unfolding build_insert_row_with_generated_id
build-err schema i stmt id {e = e} q =
    let later =
      place_columns-err schema i stmt.columns stmt.values
        (set (replicate (length schema.columns) []) i (print_u64 id)) {e = e} in
    ground (arith, later, q)
