-- ===== src/Runtime/Load.antt =====
-- src/runtime.c: a table that is loaded into the cache.
use threaded_db_api_server.Prelude.{
  ℕ, ◌+◌, ◌≤◌, ◌≡◌, refl, ap, sym, subst, none, some, List, [], ◌∷◌, ◌++◌, length, arith,
}
use threaded_db_api_server.Prelude.Bytes.{Bytes, codes}
use threaded_db_api_server.Errors.{Result, ok, err, index_error, as_status}
use threaded_db_api_server.Disk.{Disk}
use threaded_db_api_server.Ids.{u64_max}
use threaded_db_api_server.BpTree.{BpTree}
use threaded_db_api_server.Schema.{TableSchema, schema_find_column_index, load_table_schema}
use threaded_db_api_server.Schema.Columns.{load_table_schema_name}
use threaded_db_api_server.Storage.Fields.{Row}
use threaded_db_api_server.Storage.Table.{ensure_table_data_file}
use threaded_db_api_server.Storage.Table.Scan.{HasRows}
use threaded_db_api_server.Storage.Table.Ensure.{ensure-HasRows}
use threaded_db_api_server.Runtime.{
  ExecutionContext, build_id_index_for_table, find_table, Loaded, cache_table, cache_indexed,
  unindexed, load_index, load_data, load_table, get_or_load_table_runtime,
}
use threaded_db_api_server.Runtime.Build.{build_id_index-Indexed, build_id_index-err}
use threaded_db_api_server.Runtime.Cached.{IsCached}

-- What loading a table with the rows comes to: no index, or the table in step with its file, at the
-- end of the cache.
abbrev pub LoadOutcome : ExecutionContext → ℕ → List (ℕ × Row) → Loaded → Type 0
LoadOutcome ctx i rows (d', err e) = e ≡ index_error
LoadOutcome ctx i rows (d', ok (ctx', j, table)) =
    (m : ℕ) × IsCached d' ctx.db_dir table i m rows
    × (table.next_id ≡ m + 1)
    × (m + 1 ≤ u64_max)
    × (ctx'.db_dir ≡ ctx.db_dir)
    × (ctx'.tables ≡ ctx.tables ++ (table ∷ []))
    × (j ≡ length ctx.tables)

cache_indexed-LoadOutcome :
    (d : Disk) (ctx : ExecutionContext) (schema : TableSchema) (name : Bytes) (i : ℕ)
    (rows : List (ℕ × Row)) (r : Result (BpTree × ℕ))
    → schema.table_name ≡ name
    → HasRows d ctx.db_dir name (length schema.columns) rows
    → schema_find_column_index schema (codes "id") ≡ some i
    → build_id_index_for_table d ctx.db_dir schema i ≡ r
    → LoadOutcome ctx i rows (d, cache_indexed ctx (unindexed schema name (some i)) r)
unfolding cache_indexed cache_table
cache_indexed-LoadOutcome d ctx schema name i rows (err e) s w c b =
    ap (λ t. as_status t index_error) (build_id_index-err d ctx.db_dir schema i e b)
cache_indexed-LoadOutcome d ctx schema name i rows (ok (tree, next_id)) s w c b =
    let at_name : HasRows d ctx.db_dir schema.table_name (length schema.columns) rows =
      subst (λ t. HasRows d ctx.db_dir t (length schema.columns) rows) (sym s) w in
    let (m, v, n, up) = build_id_index-Indexed schema i at_name b in
    (
      m,
      record {
        named = s;
        stored = w;
        id_column = c;
        has_id = refl;
        at_index = refl;
        ready = refl;
        indexed = v;
        next = omega (arith, n, up);
        in_range = omega (arith, up);
      },
      n,
      up,
      refl,
      refl,
      refl,
    )

load_data-LoadOutcome :
    (ctx : ExecutionContext) (schema : TableSchema) (name : Bytes) (i : ℕ) (rows : List (ℕ × Row))
    (p : Disk × Result (Unit {0}))
    → p.1 ≡ ok tt
    → schema.table_name ≡ name
    → HasRows p.0 ctx.db_dir name (length schema.columns) rows
    → schema_find_column_index schema (codes "id") ≡ some i
    → LoadOutcome ctx i rows (load_data ctx schema name p)
unfolding load_data load_index
load_data-LoadOutcome ctx schema name i rows (d, err e) q s w c = cc
load_data-LoadOutcome ctx schema name i rows (d, ok u) q s w c =
    subst (λ o. LoadOutcome ctx i rows (d, load_index d ctx schema name o)) (sym c)
      (cache_indexed-LoadOutcome d ctx schema name i rows _ s w c refl)

-- Loading a table that is not in the cache, whose schema can be read and has the column "id" and
-- whose file is well-formed (`HasRows`), fails only with STATUS_INDEX_ERROR. Else the table comes
-- to the end of the cache in step with its file (`IsCached`): every row is in the index under its
-- own id, and the next id is over every id, and at most UINT64_MAX.
pub get_or_load-LoadOutcome :
    (d : Disk) (ctx : ExecutionContext) (name : Bytes) (schema : TableSchema) (i : ℕ)
    (rows : List (ℕ × Row))
    → find_table ctx.tables name 0 ≡ none
    → load_table_schema d ctx.db_dir name ≡ ok schema
    → HasRows d ctx.db_dir name (length schema.columns) rows
    → schema_find_column_index schema (codes "id") ≡ some i
    → LoadOutcome ctx i rows (get_or_load_table_runtime d ctx name)
unfolding get_or_load_table_runtime load_table
get_or_load-LoadOutcome d ctx name schema i rows f l w c =
    rw (f, l, get_or_load_table_runtime)
      (load_data-LoadOutcome ctx schema name i rows (ensure_table_data_file d ctx.db_dir name)
        (ensure-HasRows w).0 (load_table_schema_name d ctx.db_dir name l) (ensure-HasRows w).1 c)
