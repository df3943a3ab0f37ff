-- ===== src/Executor/Insert/Plain.antt =====
-- src/executor.c: an INSERT into a table without an id column.
use threaded_db_api_server.Prelude.{
  ℕ, ◌≤◌, ◌≡◌, ◌≢◌, refl, sym, subst, ◌∙◌, Bool, true, false, none, List, [], ◌∷◌, ◌++◌, map,
  length, ◌==◌, get_or, set, replicate, arith, Bool-cases, Option-cases, inl, inr, length-set,
  length-replicate, length-map, if◌then◌else◌, not,
}
use threaded_db_api_server.Prelude.Bytes.{Bytes}
use threaded_db_api_server.Errors.{exec_error, Result, ok, err}
use threaded_db_api_server.Disk.{Disk}
use threaded_db_api_server.Schema.{TableSchema, schema_find_column_index}
use threaded_db_api_server.Storage.Fields.{Row}
use threaded_db_api_server.Storage.Fields.Text.{AreTexts, strip_last}
use threaded_db_api_server.Storage.Lines.Bounds.{NoNul}
use threaded_db_api_server.Storage.Table.{append_row_to_table_with_offset}
use threaded_db_api_server.Storage.Table.Scan.{HasRows}
use threaded_db_api_server.Storage.Table.Append.{data_size, append-HasRows}
use threaded_db_api_server.Runtime.{TableRuntime, ExecutionContext}
use threaded_db_api_server.Executor.{LiteralValue, InsertStatement}
use threaded_db_api_server.Executor.Insert.{
  Inserted, insert_result, text_of, fill_columns, build_insert_row_existing_behavior, append_plain,
  store_plain, insert_by, insert_into,
}
use threaded_db_api_server.Executor.Insert.GeneratedRow.{AreLiterals, All-set, All-replicate}

-- A row with a value for each column, or the statement is at fault.
data IsBuilt (n : ℕ) : Result Row → Type 0 where
  built : {row : Row} → length row ≡ n → AreTexts row → IsBuilt n (ok row)
  at_fault : IsBuilt n (err exec_error)

IsBuilt-if :
    (n : ℕ) (b : Bool) {r s : Result Row}
    → IsBuilt n r
    → IsBuilt n s
    → IsBuilt n (if b then r else s)
IsBuilt-if n true h k = h
IsBuilt-if n false h k = k

texts_of : (vs : List LiteralValue) → AreLiterals vs → AreTexts (map text_of vs)
texts_of [] l = tt
texts_of (v ∷ vs) l = (l.0, texts_of vs l.1)

fill_columns-IsBuilt :
    (n : ℕ) (schema : TableSchema) (cs : List Bytes) (vs : List LiteralValue) (row : Row)
    (seen : List Bool)
    → AreLiterals vs
    → length row ≡ n
    → AreTexts row
    → IsBuilt n (fill_columns schema cs vs row seen)
unfolding fill_columns
fill_columns-IsBuilt n schema [] vs row seen l h t = built h t
fill_columns-IsBuilt n schema (c ∷ cs) [] row seen l h t = built h t
fill_columns-IsBuilt n schema (c ∷ cs) (v ∷ vs) row seen l h t =
    elim (Option-cases (schema_find_column_index schema c)) [
      | inl f ↦ rw (f, fill_columns) at_fault
      | inr (i, f) ↦
          rw (f, fill_columns)
            (IsBuilt-if n (get_or seen i false) at_fault (
              fill_columns-IsBuilt n schema cs vs (set row i v.text) (set seen i true) l.1
                (length-set row i v.text ∙ h) (All-set NoNul row i v.text t l.0)))
    ]

build-IsBuilt :
    (schema : TableSchema) (stmt : InsertStatement)
    → AreLiterals stmt.values
    → IsBuilt (length schema.columns) (build_insert_row_existing_behavior schema stmt)
unfolding build_insert_row_existing_behavior
build-IsBuilt schema stmt l =
    let n = length schema.columns in
    IsBuilt-if n (length stmt.columns == 0) listed (
      IsBuilt-if n (not (length stmt.columns == length stmt.values)) at_fault (
        fill_columns-IsBuilt n schema stmt.columns stmt.values (replicate n []) (replicate n false)
          l (length-replicate n []) (All-replicate NoNul n [] tt)))
  where
    listed : IsBuilt (length schema.columns) (
        if not (length stmt.values == length schema.columns)
        then err exec_error
        else ok (map text_of stmt.values))
    listed = elim (Bool-cases (length stmt.values == length schema.columns)) [
      | inl e ↦
          rw e (built (length-map text_of stmt.values ∙ ground (arith, e)) (texts_of stmt.values l))
      | inr e ↦ rw e at_fault
    ]

-- Either nothing has changed and the statement is at fault, or the file has the built row more.
abbrev pub PlainOutcome :
    Disk → Bytes → TableRuntime → List (ℕ × Row) → InsertStatement → Inserted → Type 0
PlainOutcome d db_dir table rows stmt (d', table', err e) =
    (d' ≡ d) × (table' ≡ table) × (e ≡ exec_error)
PlainOutcome d db_dir table rows stmt (d', table', ok r) =
    (row : Row) × (build_insert_row_existing_behavior table.schema stmt ≡ ok row)
    × HasRows d' db_dir table.table_name (length table.schema.columns)
        (rows ++ ((data_size d db_dir table.table_name, strip_last row) ∷ []))
    × (table' ≡ table)
    × (r ≡ insert_result false 0)

module _ (d : Disk) (ctx : ExecutionContext) (table : TableRuntime) (rows : List (ℕ × Row))
    (stored : HasRows d ctx.db_dir table.table_name (length table.schema.columns) rows)
    (stmt : InsertStatement) where
  after_append :
      (p : Disk × Result ℕ) (row : Row)
      → build_insert_row_existing_behavior table.schema stmt ≡ ok row
      → p.1 ≡ ok (data_size d ctx.db_dir table.table_name)
      → HasRows p.0 ctx.db_dir table.table_name
          (length table.schema.columns)
          (rows ++ ((data_size d ctx.db_dir table.table_name, strip_last row) ∷ []))
      → PlainOutcome d ctx.db_dir table rows stmt (append_plain table p)
  unfolding append_plain
  after_append (d', err e) row b r longer = absurd (cc r)
  after_append (d', ok pos) row b r longer = (row, b, longer, refl, refl)

  store_plain-PlainOutcome :
      (name : Bytes) (r : Result Row)
      → name ≡ table.table_name
      → 1 ≤ length table.schema.columns
      → build_insert_row_existing_behavior table.schema stmt ≡ r
      → IsBuilt (length table.schema.columns) r
      → PlainOutcome d ctx.db_dir table rows stmt (store_plain d ctx table name r)
  unfolding store_plain
  store_plain-PlainOutcome name (err e) same some_column b at_fault = (refl, refl, refl)
  store_plain-PlainOutcome name (ok row) same some_column b (built full texts) =
      let ne : row ≢ [] = ground (arith, full, some_column) in
      let (r, longer) = append-HasRows row stored texts ne full in
      subst
        (λ t.
          PlainOutcome d ctx.db_dir table rows stmt
            (append_plain table (append_row_to_table_with_offset d ctx.db_dir t row)))
        (sym same) (after_append _ row b r longer)

  -- An INSERT of C strings into a table without an id column, which has some column and a
  -- well-formed file (`HasRows`), either is refused with STATUS_EXEC_ERROR, with the files as they
  -- were, or stores the row that `build_insert_row_existing_behavior` builds, but for a carriage
  -- return at the end of its last value: it is the last row of the file, at the file's old size.
  -- The table in the cache stays as it is.
  pub insert_into-PlainOutcome :
      table.id_column_index ≡ none
      → stmt.table_name ≡ table.table_name
      → 1 ≤ length table.schema.columns
      → AreLiterals stmt.values
      → PlainOutcome d ctx.db_dir table rows stmt (insert_into d ctx table stmt)
  unfolding insert_into insert_by
  insert_into-PlainOutcome plain same some_column l =
      subst (λ o. PlainOutcome d ctx.db_dir table rows stmt (insert_by d ctx table stmt o))
        (sym plain)
        (store_plain-PlainOutcome stmt.table_name _ same some_column refl
          (build-IsBuilt table.schema stmt l))
