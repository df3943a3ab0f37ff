-- ===== src/Executor/Insert/Keeps.antt =====
-- src/executor.c: an INSERT into a table with an id column keeps its file, its index and its next id
-- in step.
use threaded_db_api_server.Prelude.{
  ℕ, ◌+◌, ◌≤◌, ◌≡◌, ◌≢◌, refl, sym, subst, true, some, List, [], ◌∷◌, ◌++◌, length, get_elem?, ◌==◌,
  arith, Bool-cases, Option-cases, inl, inr,
}
use threaded_db_api_server.Prelude.Bytes.{Bytes, codes}
use threaded_db_api_server.Errors.{exec_error, Result, ok, err}
use threaded_db_api_server.Disk.{Disk}
use threaded_db_api_server.Ids.{u64_max, print_u64}
use threaded_db_api_server.Ids.RoundTrip.{parse-print_u64}
use threaded_db_api_server.BpTree.{BpTree, bptree_insert}
use threaded_db_api_server.BpTree.Tree.{bptree_insert-eq-none_iff}
use threaded_db_api_server.Schema.Columns.{schema_find_column_index-bound}
use threaded_db_api_server.Storage.Fields.{Row}
use threaded_db_api_server.Storage.Fields.Text.{strip_last}
use threaded_db_api_server.Storage.Table.{append_row_to_table_with_offset}
use threaded_db_api_server.Storage.Table.Scan.{HasRows}
use threaded_db_api_server.Storage.Table.Append.{data_size, append-HasRows}
use threaded_db_api_server.Runtime.{TableRuntime, ExecutionContext}
use threaded_db_api_server.Runtime.Indexed.{Indexed, add, Indexed-IsTree, Indexed-bound}
use threaded_db_api_server.Runtime.Cached.{IsCached}
use threaded_db_api_server.Executor.{InsertStatement}
use threaded_db_api_server.Executor.Insert.{
  Inserted, insert_result, validate_insert_columns_for_auto_id, build_insert_row_with_generated_id,
  index_row, append_indexed, store_generated, insert_valid, insert_by, insert_into,
}
use threaded_db_api_server.Executor.Insert.Faults.{validate-err, build-err}
use threaded_db_api_server.Executor.Insert.GeneratedRow.{
  AreLiterals, IsGenerated, build_insert_row-IsGenerated, get_elem?-strip_last,
}

-- Either nothing has changed and the statement is at fault, or the ids have run out; or the table has
-- one row more, at the old end of its file and under the next id.
abbrev pub Outcome :
    Disk → Bytes → TableRuntime → ℕ → ℕ → List (ℕ × Row) → InsertStatement → Inserted → Type 0
Outcome d db_dir table i m rows stmt (d', table', err e) =
    (d' ≡ d) × (table' ≡ table) × (e ≡ exec_error)
Outcome d db_dir table i m rows stmt (d', table', ok r) =
    (row : Row) × (build_insert_row_with_generated_id table.schema i stmt (m + 1) ≡ ok row)
    × IsCached d' db_dir table' i (m + 1)
        (rows ++ ((data_size d db_dir table.table_name, strip_last row) ∷ []))
    × (get_elem? (strip_last row) i ≡ some (print_u64 (m + 1)))
    × (r ≡ insert_result true (m + 1))

-- The tree takes a key over its largest.
insert_fresh :
    {i m : ℕ} {rows : List (ℕ × Row)} {tree : BpTree} (pos : ℕ)
    → Indexed i rows tree m
    → m + 1 ≤ u64_max
    → (tree' : BpTree) × (bptree_insert tree (m + 1) pos ≡ some tree')
insert_fresh {m} {tree} pos w h = elim (Option-cases (bptree_insert tree (m + 1) pos)) [
  | inl e ↦
      let found =
        (bptree_insert-eq-none_iff tree (m + 1) pos (Indexed-IsTree w) (omega arith)).0 e in
      cc (found.1, Indexed-bound (m + 1) w (omega arith))
  | inr f ↦ f
]

module _ (d : Disk) (ctx : ExecutionContext) (table : TableRuntime) (i m : ℕ)
    (rows : List (ℕ × Row)) (w : IsCached d ctx.db_dir table i m rows) (stmt : InsertStatement)
    (room : m + 1 ≤ u64_max) where
  index_row-Outcome :
      (d' : Disk) (row : Row)
      → HasRows d' ctx.db_dir table.table_name
          (length table.schema.columns)
          (rows ++ ((data_size d ctx.db_dir table.table_name, strip_last row) ∷ []))
      → get_elem? (strip_last row) i ≡ some (print_u64 (m + 1))
      → build_insert_row_with_generated_id table.schema i stmt (m + 1) ≡ ok row
      → Outcome d ctx.db_dir table i m rows stmt (
          index_row d' table
            (m + 1)
            (bptree_insert table.id_index (m + 1) (data_size d ctx.db_dir table.table_name)))
  unfolding index_row
  index_row-Outcome d' row stored text b =
      let pos = data_size d ctx.db_dir table.table_name in
      let (tree', e) = insert_fresh pos w.indexed room in
      rw e (
        row,
        b,
        record {
          named = w.named;
          stored = stored;
          id_column = w.id_column;
          has_id = w.has_id;
          at_index = w.at_index;
          ready = refl;
          indexed =
              add pos (m + 1) (strip_last row) (print_u64 (m + 1)) w.indexed text
                (parse-print_u64 (m + 1) (omega arith) room) e (omega arith) (omega arith);
          next = omega (arith, w.next);
          in_range = room;
        },
        text,
        refl,
      )

  after_append :
      (p : Disk × Result ℕ) (row : Row)
      → p.1 ≡ ok (data_size d ctx.db_dir table.table_name)
      → HasRows p.0 ctx.db_dir table.table_name
          (length table.schema.columns)
          (rows ++ ((data_size d ctx.db_dir table.table_name, strip_last row) ∷ []))
      → get_elem? (strip_last row) i ≡ some (print_u64 (m + 1))
      → build_insert_row_with_generated_id table.schema i stmt (m + 1) ≡ ok row
      → Outcome d ctx.db_dir table i m rows stmt (append_indexed table (m + 1) p)
  unfolding append_indexed
  after_append (d', err e) row r stored text b = cc
  after_append (d', ok pos) row r stored text b =
      let at_end : data_size d ctx.db_dir table.table_name ≡ pos = cc in
      subst
        (λ o.
          Outcome d ctx.db_dir table i m rows stmt
            (index_row d' table (m + 1) (bptree_insert table.id_index (m + 1) o)))
        at_end (index_row-Outcome d' row stored text b)

  append_indexed-Outcome :
      (row : Row)
      → IsGenerated (length table.schema.columns) i (print_u64 (m + 1)) row
      → build_insert_row_with_generated_id table.schema i stmt (m + 1) ≡ ok row
      → Outcome d ctx.db_dir table i m rows stmt (
          append_indexed table
            (m + 1)
            (append_row_to_table_with_offset d ctx.db_dir table.table_name row))
  append_indexed-Outcome row g b =
      let bound = schema_find_column_index-bound table.schema (codes "id") w.id_column in
      let ne : row ≢ [] = ground (arith, g.full) in
      let (r, stored) = append-HasRows row w.stored g.texts ne g.full in
      after_append _ row r stored (get_elem?-strip_last row i (m + 1) g.id_text) b

module _ (d : Disk) (ctx : ExecutionContext) (table : TableRuntime) (i m : ℕ)
    (rows : List (ℕ × Row)) (w : IsCached d ctx.db_dir table i m rows)
    (stmt : InsertStatement) where
  stored-Outcome :
      (name : Bytes) (r : Result Row)
      → AreLiterals stmt.values
      → m + 1 ≤ u64_max
      → name ≡ table.table_name
      → table.next_id ≡ m + 1
      → build_insert_row_with_generated_id table.schema i stmt table.next_id ≡ r
      → Outcome d ctx.db_dir table i m rows stmt (store_generated d ctx table name r)
  unfolding store_generated
  stored-Outcome name (err e) l room same n b =
      (refl, refl, build-err table.schema i stmt table.next_id b)
  stored-Outcome name (ok row) l room same n b =
      let bound = schema_find_column_index-bound table.schema (codes "id") w.id_column in
      let made = build_insert_row-IsGenerated table.schema i stmt table.next_id bound l b in
      subst
        (λ id.
          Outcome d ctx.db_dir table i m rows stmt
            (append_indexed table id (append_row_to_table_with_offset d ctx.db_dir name row)))
        (sym n)
        (subst
          (λ t.
            Outcome d ctx.db_dir table i m rows stmt
              (append_indexed table (m + 1) (append_row_to_table_with_offset d ctx.db_dir t row)))
          (sym same)
          (append_indexed-Outcome d ctx table i m rows w stmt room row
            (subst (λ id. IsGenerated (length table.schema.columns) i (print_u64 id) row) n made)
            (subst (λ id. build_insert_row_with_generated_id table.schema i stmt id ≡ ok row) n b)))

  insert_valid-Outcome :
      (r : Result (Unit {0}))
      → AreLiterals stmt.values
      → stmt.table_name ≡ table.table_name
      → validate_insert_columns_for_auto_id table.schema i stmt ≡ r
      → Outcome d ctx.db_dir table i m rows stmt (insert_valid d ctx table i stmt r)
  unfolding insert_valid
  insert_valid-Outcome (err e) l same v = (refl, refl, validate-err table.schema i stmt v)
  insert_valid-Outcome (ok u) l same v = elim (Bool-cases (table.next_id == 0)) [
    | inl z ↦ rw z (refl, refl, refl)
    | inr z ↦
        let up = w.in_range in
        let n : table.next_id ≡ m + 1 = ground (arith, w.next) in
        let room : m + 1 ≤ u64_max = ground (arith, w.next) in
        rw z (stored-Outcome stmt.table_name _ l room same n refl)
  ]

  -- An INSERT of C strings into a cached table with an id column that is in step with its file
  -- (`IsCached`) either is refused with STATUS_EXEC_ERROR, with files and table as they were, or
  -- stores the row that is built with the next id, but for a carriage return at the end of its
  -- last value: it is the last row of the file, at the file's old size, its id column has the text
  -- of that id, the result names the id, and file, index and next id are in step again.
  pub insert_into-Outcome :
      stmt.table_name ≡ table.table_name
      → AreLiterals stmt.values
      → Outcome d ctx.db_dir table i m rows stmt (insert_into d ctx table stmt)
  unfolding insert_into insert_by
  insert_into-Outcome same l =
      subst (λ o. Outcome d ctx.db_dir table i m rows stmt (insert_by d ctx table stmt o))
        (sym w.at_index) (insert_valid-Outcome _ l same refl)
