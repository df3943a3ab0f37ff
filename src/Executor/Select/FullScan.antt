-- ===== src/Executor/Select/FullScan.antt =====
-- src/executor.c: what the scan of the whole table selects.
use threaded_db_api_server.Prelude.{
  ℕ, ◌≡◌, refl, ◌∙◌, true, false, Option, some, List, [], ◌∷◌, ◌++◌, map, if◌then◌else◌, length,
  get_elem?, Bool-cases, Option-cases, inl, inr, append_assoc, append-nil,
}
use threaded_db_api_server.Prelude.Bytes.{Bytes}
use threaded_db_api_server.Errors.{ok}
use threaded_db_api_server.Disk.{Disk}
use threaded_db_api_server.Schema.{TableSchema}
use threaded_db_api_server.Storage.Fields.{Row}
use threaded_db_api_server.Storage.Table.{finished}
use threaded_db_api_server.Storage.Table.Scan.{HasRows, fold_rows, scan-HasRows}
use threaded_db_api_server.Runtime.{TableRuntime, ExecutionContext}
use threaded_db_api_server.Runtime.Indexed.{has_text, rows_with}
use threaded_db_api_server.Executor.{SelectStatement}
use threaded_db_api_server.Executor.Select.{
  initialize_query_result_columns, matches_at, row_matches_where_clause, project_single_row,
  select_full_scan_callback, where_index_of, finish_scan, execute_select_with_full_scan,
}

-- the rows that the WHERE clause keeps
pub kept : SelectStatement → Option ℕ → List (ℕ × Row) → List (ℕ × Row)
kept stmt where_index [] = []
kept stmt where_index (r ∷ rows) =
    let rest = kept stmt where_index rows in
    if row_matches_where_clause stmt where_index r.1 then r ∷ rest else rest

-- a projected row
abbrev pub projected : TableSchema → SelectStatement → ℕ × Row → Row
projected schema stmt r = project_single_row schema stmt r.1

fold_rows-select :
    (schema : TableSchema) (stmt : SelectStatement) (where_index : Option ℕ) (expected : ℕ)
    (rows : List (ℕ × Row)) (columns : List Bytes) (out : List Row)
    → fold_rows
        (select_full_scan_callback schema stmt where_index)
        expected
        rows
        (record { columns = columns; rows = out })
      ≡ finished (record {
        columns = columns;
        rows = out ++ map (projected schema stmt) (kept stmt where_index rows);
      })
unfolding fold_rows select_full_scan_callback kept
fold_rows-select schema stmt wi expected [] columns out = rw append-nil
fold_rows-select schema stmt wi expected ((pos, row) ∷ rows) columns out =
    elim (Bool-cases (row_matches_where_clause stmt wi row)) [
      | inl e ↦
          rw (e, fold_rows, select_full_scan_callback)
            (fold_rows-select schema stmt wi expected rows columns
                (out ++ (project_single_row schema stmt row ∷ []))
              ∙ rw append_assoc)
      | inr e ↦
          rw (e, fold_rows, select_full_scan_callback)
            (fold_rows-select schema stmt wi expected rows columns out)
    ]

-- For a well-formed table (`HasRows`) the scan of the whole table selects its rows that the WHERE
-- clause keeps, projected, in the order of the file, and says that no index was used.
pub full_scan-HasRows :
    (d : Disk) (ctx : ExecutionContext) (table : TableRuntime) (stmt : SelectStatement)
    {rows : List (ℕ × Row)}
    → HasRows d ctx.db_dir table.table_name (length table.schema.columns) rows
    → execute_select_with_full_scan d ctx table stmt
      ≡ ok (
        record {
          columns = if stmt.select_all then table.schema.columns else stmt.columns;
          rows = map (projected table.schema stmt) (kept stmt (where_index_of table stmt) rows);
        },
        false,
      )
unfolding execute_select_with_full_scan initialize_query_result_columns finish_scan
full_scan-HasRows d ctx table stmt {rows} w =
    let wi = where_index_of table stmt in
    rw
      (
        scan-HasRows (select_full_scan_callback table.schema stmt wi) (length table.schema.columns)
            _ w,
        fold_rows-select table.schema stmt wi (length table.schema.columns) rows _ [],
      )
      refl

pub row_matches-has_text :
    (stmt : SelectStatement) (i : ℕ) (row : Row)
    → stmt.where_clause.has_condition ≡ true
    → row_matches_where_clause stmt (some i) row ≡ has_text i stmt.where_clause.value.text row
unfolding row_matches_where_clause matches_at
row_matches-has_text stmt i row c = elim (Option-cases (get_elem? row i)) [
  | inl e ↦ rw (c, e, matches_at)
  | inr (v, e) ↦ rw (c, e, matches_at)
]

-- With a condition on the column `i` these are the rows with the literal's text there.
pub kept-rows_with :
    (stmt : SelectStatement) (i : ℕ) (rows : List (ℕ × Row))
    → stmt.where_clause.has_condition ≡ true
    → kept stmt (some i) rows ≡ rows_with i stmt.where_clause.value.text rows
unfolding kept rows_with
kept-rows_with stmt i [] c = refl
kept-rows_with stmt i (r ∷ rows) c =
    rw (row_matches-has_text stmt i r.1 c, kept-rows_with stmt i rows c)
