-- ===== src/Executor/Select/SameRows.antt =====
-- src/executor.c: the two paths of SELECT give the same rows.
use threaded_db_api_server.Prelude.{
  ℕ, ◌≡◌, refl, ◌∙◌, true, false, Option, none, some, List, [], ◌∷◌, map, if◌then◌else◌, arith,
  Bool-cases, inl, inr, All,
}
use threaded_db_api_server.Prelude.Bytes.{Bytes, codes, str_eq_iff}
use threaded_db_api_server.Errors.{ok}
use threaded_db_api_server.Disk.{Disk}
use threaded_db_api_server.Ids.{parse_canonical_positive_uint64}
use threaded_db_api_server.Storage.Fields.{Row}
use threaded_db_api_server.Storage.Table.Append.{read_row_at_offset-HasRows}
use threaded_db_api_server.Runtime.{TableRuntime, ExecutionContext}
use threaded_db_api_server.Runtime.Indexed.{has_text, rows_with, Answers, Indexed-Answers}
use threaded_db_api_server.Runtime.Cached.{IsCached}
use threaded_db_api_server.Executor.{SelectStatement, QueryResult}
use threaded_db_api_server.Executor.Select.{
  initialize_query_result_columns, can_use_id_index, found_row, select_at,
  execute_select_with_id_index, where_index_of, execute_select_with_full_scan,
}
use threaded_db_api_server.Executor.Select.FullScan.{
  projected, full_scan-HasRows, row_matches-has_text, kept-rows_with,
}

-- The rows with a text are among the rows, and have it.
All-rows_with {ℓ} :
    (P : ℕ × Row → Type ℓ) (i : ℕ) (text : Bytes) (rows : List (ℕ × Row))
    → All P rows
    → All (λ r. P r × (has_text i text r.1 ≡ true)) (rows_with i text rows)
unfolding rows_with
All-rows_with P i text [] h = tt
All-rows_with P i text (r ∷ rows) h = elim (Bool-cases (has_text i text r.1)) [
  | inl e ↦ rw e ((h.0, e), All-rows_with P i text rows h.1)
  | inr e ↦ rw e (All-rows_with P i text rows h.1)
]

-- what a SELECT by a condition on the column `i` is to give
abbrev pub expected_result : TableRuntime → SelectStatement → ℕ → List (ℕ × Row) → QueryResult
expected_result table stmt i rows = record {
  columns = if stmt.select_all then table.schema.columns else stmt.columns;
  rows = map (projected table.schema stmt) (rows_with i stmt.where_clause.value.text rows);
}

pub indexable :
    (table : TableRuntime) (stmt : SelectStatement) {k : ℕ}
    → can_use_id_index table stmt ≡ some k
    → (stmt.where_clause.has_condition ≡ true)
      × (stmt.where_clause.column_name ≡ codes "id")
      × (parse_canonical_positive_uint64 stmt.where_clause.value.text ≡ some k)
unfolding can_use_id_index
indexable table stmt e =
    let column = (str_eq_iff stmt.where_clause.column_name (codes "id")).0 in ground arith

found_row-match :
    (table : TableRuntime) (stmt : SelectStatement) (i : ℕ) (row : Row)
    → table.id_column_index ≡ some i
    → stmt.where_clause.has_condition ≡ true
    → has_text i stmt.where_clause.value.text row ≡ true
    → found_row table stmt (ok row)
      ≡ ok (
        record {
          columns = if stmt.select_all then table.schema.columns else stmt.columns;
          rows = projected table.schema stmt (0, row) ∷ [];
        },
        true,
      )
unfolding found_row initialize_query_result_columns
found_row-match table stmt i row at c t = rw (at, row_matches-has_text stmt i row c, t) refl

pub select_at-Answers :
    (d : Disk) (ctx : ExecutionContext) (table : TableRuntime) (stmt : SelectStatement) (i m : ℕ)
    (rows : List (ℕ × Row)) (o : Option ℕ)
    → IsCached d ctx.db_dir table i m rows
    → stmt.where_clause.has_condition ≡ true
    → Answers i stmt.where_clause.value.text rows o
    → select_at d ctx table stmt o ≡ ok (expected_result table stmt i rows, true)
unfolding select_at initialize_query_result_columns
select_at-Answers d ctx table stmt i m rows none w c a = rw a
select_at-Answers d ctx table stmt i m rows (some pos) w c (row, a) =
    let found =
      All-rows_with _ i stmt.where_clause.value.text rows (read_row_at_offset-HasRows w.stored) in
    let ((read, matches), _) = rw a at found in
    rw (read, a) (found_row-match table stmt i row w.at_index c matches)

pub select_with_id_index_lem :
    (d : Disk) (ctx : ExecutionContext) (table : TableRuntime) (stmt : SelectStatement) (i m : ℕ)
    (rows : List (ℕ × Row)) {k : ℕ}
    → IsCached d ctx.db_dir table i m rows
    → can_use_id_index table stmt ≡ some k
    → execute_select_with_id_index d ctx table stmt k ≡ ok (expected_result table stmt i rows, true)
unfolding execute_select_with_id_index
select_with_id_index_lem d ctx table stmt i m rows {k} w u =
    let (c, column, p) = indexable table stmt u in
    let text = stmt.where_clause.value.text in
    select_at-Answers d ctx table stmt i m rows _ w c (Indexed-Answers text k w.indexed p)

-- For a cached table in step with its file (`IsCached`) and a SELECT for which `can_use_id_index`
-- gives a key, looking up the key and reading the one row gives the same columns and rows as the
-- scan of the whole table; both succeed, and say truly whether the index was used.
pub select_with_id_index-full_scan :
    (d : Disk) (ctx : ExecutionContext) (table : TableRuntime) (stmt : SelectStatement) (i m : ℕ)
    (rows : List (ℕ × Row)) {k : ℕ}
    → IsCached d ctx.db_dir table i m rows
    → can_use_id_index table stmt ≡ some k
    → (result : QueryResult) × (execute_select_with_id_index d ctx table stmt k ≡ ok (result, true))
      × (execute_select_with_full_scan d ctx table stmt ≡ ok (result, false))
select_with_id_index-full_scan d ctx table stmt i m rows {k} w u =
    let (c, column, p) = indexable table stmt u in
    let wi : where_index_of table stmt ≡ some i = rw (c, column) w.id_column in
    (
      expected_result table stmt i rows,
      select_with_id_index_lem d ctx table stmt i m rows w u,
      full_scan-HasRows d ctx table stmt w.stored ∙ rw (wi, kept-rows_with stmt i rows c),
    )
