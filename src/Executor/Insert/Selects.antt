-- ===== src/Executor/Insert/Selects.antt =====
-- src/executor.c: a SELECT by id after the INSERT that gave the id.
use threaded_db_api_server.Prelude.{
  ℕ, ◌+◌, ◌≡◌, refl, sym, ap, ◌∙◌, subst, ◌++◌, true, some, List, [], ◌∷◌, get_elem?, if◌then◌else◌,
  arith,
}
use threaded_db_api_server.Prelude.Bytes.{Bytes}
use threaded_db_api_server.Errors.{ok}
use threaded_db_api_server.Disk.{Disk}
use threaded_db_api_server.Ids.{print_u64, parse_canonical_positive_uint64}
use threaded_db_api_server.BpTree.{BpTree}
use threaded_db_api_server.Storage.Fields.{Row}
use threaded_db_api_server.Storage.Fields.Text.{strip_last}
use threaded_db_api_server.Storage.Table.Append.{data_size}
use threaded_db_api_server.Runtime.{TableRuntime, ExecutionContext}
use threaded_db_api_server.Runtime.Indexed.{
  Indexed, rows_with, Answers, Indexed-bound, Indexed-Answers, id_range, rows_with-append,
  rows_with-match,
}
use threaded_db_api_server.Runtime.Cached.{IsCached}
use threaded_db_api_server.Executor.{InsertStatement, SelectStatement, ExecResult}
use threaded_db_api_server.Executor.Select.{
  project_single_row, can_use_id_index, execute_select_with_id_index,
}
use threaded_db_api_server.Executor.Select.SameRows.{indexable, select_with_id_index_lem}
use threaded_db_api_server.Executor.Insert.{build_insert_row_with_generated_id, insert_into}
use threaded_db_api_server.Executor.Insert.GeneratedRow.{AreLiterals}
use threaded_db_api_server.Executor.Insert.Keeps.{Outcome, insert_into-Outcome}

-- A row behind rows with smaller ids is the only one with its id.
rows_with_last :
    (i m pos : ℕ) (rows : List (ℕ × Row)) (tree : BpTree) (row : Row) (text : Bytes)
    → Indexed i rows tree m
    → parse_canonical_positive_uint64 text ≡ some (m + 1)
    → get_elem? row i ≡ some (print_u64 (m + 1))
    → rows_with i text (rows ++ ((pos, row) ∷ [])) ≡ (pos, row) ∷ []
rows_with_last i m pos rows tree row text w p g =
    let absent = Indexed-bound (m + 1) w (omega arith) in
    let nothing : rows_with i text rows ≡ [] =
      subst (Answers i text rows) absent (Indexed-Answers text (m + 1) w p) in
    rows_with-append i text rows ((pos, row) ∷ [])
    ∙ rw (nothing, rows_with-match i pos text (print_u64 (m + 1)) row g (sym (id_range p).2)) refl

-- If an INSERT of C strings into a cached table with an id column that is in step with its file
-- (`IsCached`) succeeds, then a SELECT by the id that it gave, through the index, gives just one
-- row: the projection of the row that was built with that id, but for a carriage return at the end
-- of its last value.
pub select-insert_into :
    (d : Disk) (ctx : ExecutionContext) (table : TableRuntime) (i m : ℕ) (rows : List (ℕ × Row))
    (stmt : InsertStatement) (sel : SelectStatement) {d' : Disk} {table' : TableRuntime}
    {r : ExecResult}
    → IsCached d ctx.db_dir table i m rows
    → stmt.table_name ≡ table.table_name
    → AreLiterals stmt.values
    → insert_into d ctx table stmt ≡ (d', table', ok r)
    → can_use_id_index table' sel ≡ some r.generated_id
    → (row : Row) × (build_insert_row_with_generated_id table.schema i stmt r.generated_id ≡ ok row)
      × (execute_select_with_id_index d' ctx table' sel r.generated_id
          ≡ ok (
            record {
              columns = if sel.select_all then table'.schema.columns else sel.columns;
              rows = project_single_row table'.schema sel (strip_last row) ∷ [];
            },
            true,
          ))
select-insert_into d ctx table i m rows stmt sel {d'} {table'} {r} w same l e u =
    let out : Outcome d ctx.db_dir table i m rows stmt (d', table', ok r) =
      subst (Outcome d ctx.db_dir table i m rows stmt) e
        (insert_into-Outcome d ctx table i m rows w stmt same l) in
    let (row, b, w', g, q) = out in
    let id : r.generated_id ≡ m + 1 = ap (λ (x : ExecResult). x.generated_id) q in
    let (c, column, p) = indexable table' sel u in
    let only =
      rows_with_last i m (data_size d ctx.db_dir table.table_name) rows table.id_index
        (strip_last row) sel.where_clause.value.text w.indexed (p ∙ ap some id) g in
    (
      row,
      subst (λ k. build_insert_row_with_generated_id table.schema i stmt k ≡ ok row) (sym id) b,
      select_with_id_index_lem d' ctx table' sel i (m + 1) _ w' u ∙ rw only refl,
    )
