-- ===== src/Runtime.antt =====
-- src/runtime.c, include/runtime.h: the cache of loaded tables and the rebuilding of an id index.
--
-- Memory does not run out. The cache grows by doubling, so that its capacity is no limit and is left
-- out, and `table_count` is the length of `tables`. A table is handed out by its place in the cache.
pub mod Indexed
pub mod Build
pub mod Cached
pub mod Load
pub mod Present
pub mod Returns
use threaded_db_api_server.Prelude.{
  ℕ, zero, suc, ◌+◌, ◌<◌, Bool, true, false, not, ◌||◌, Option, none, some, List, [], ◌∷◌, ◌++◌,
  if◌then◌else◌, length, get_elem?, ltb, ◌==◌, set,
}
use threaded_db_api_server.Prelude.Bytes.{Bytes, codes, str_eq}
use threaded_db_api_server.Errors.{
  Status, schema_error, storage_error, index_error, out_of_rounds, as_status, Result, ok, err,
}
use threaded_db_api_server.Disk.{Disk}
use threaded_db_api_server.Ids.{u64_max, parse_canonical_positive_uint64}
use threaded_db_api_server.Schema.{TableSchema, load_table_schema, schema_find_column_index}
use threaded_db_api_server.Storage.Fields.{Row}
use threaded_db_api_server.Storage.Table.{
  Signal, proceed, failed, Scanned, finished, broken, out_of_fuel, ensure_table_data_file,
  scan_table_rows_with_offsets,
}
use threaded_db_api_server.BpTree.{BpTree, bptree_init, bptree_insert}

-- `id_column_index` is `none` for -1
pub record TableRuntime : Type 0 where
  pub table_name : Bytes
  pub schema : TableSchema
  pub has_id_column : Bool
  pub id_column_index : Option ℕ
  pub id_index_ready : Bool
  pub next_id : ℕ
  pub id_index : BpTree

pub record ExecutionContext : Type 0 where
  pub db_dir : Bytes
  pub tables : List TableRuntime

unfoldable pub init_execution_context : Bytes → ExecutionContext
init_execution_context db_dir = record { db_dir = db_dir; tables = [] }

pub record IdIndexBuildState : Type 0 where
  pub tree : BpTree
  pub max_id : ℕ
  pub saw_row : Bool

abbrev pub parse_stored_id_value : Bytes → Result ℕ
parse_stored_id_value text = elim (parse_canonical_positive_uint64 text) [
  | none ↦ err index_error
  | some id ↦ ok id
]

-- the tree with the row's id, if it took it
pub note_id : ℕ → IdIndexBuildState → Option BpTree → Signal IdIndexBuildState
note_id current_id state none = failed state
note_id current_id state (some tree) = proceed (record {
  tree = tree;
  max_id = if not state.saw_row || ltb state.max_id current_id then current_id else state.max_id;
  saw_row = true;
})

pub index_id : ℕ → IdIndexBuildState → Result ℕ → Signal IdIndexBuildState
unfolding note_id
index_id row_offset state (err e) = failed state
index_id row_offset state (ok current_id) =
    note_id current_id state (bptree_insert state.tree current_id row_offset)

pub index_text : ℕ → IdIndexBuildState → Option Bytes → Signal IdIndexBuildState
unfolding index_id
index_text row_offset state none = failed state
index_text row_offset state (some text) = index_id row_offset state (parse_stored_id_value text)

unfoldable pub build_id_index_callback : ℕ → Row → ℕ → IdIndexBuildState → Signal IdIndexBuildState
unfolding index_text
build_id_index_callback id_column_index row row_offset state =
    index_text row_offset state (get_elem? row id_column_index)

-- the tree and the next id when the scan ends
unfoldable pub finish_index : Scanned IdIndexBuildState → Result (BpTree × ℕ)
finish_index (finished state) =
    if not state.saw_row
    then ok (state.tree, 1)
    else if state.max_id == u64_max
    then err index_error
    else ok (state.tree, state.max_id + 1)
finish_index (broken state) = err index_error
finish_index out_of_fuel = err out_of_rounds

unfoldable pub build_id_index_for_table : Disk → Bytes → TableSchema → ℕ → Result (BpTree × ℕ)
unfolding build_id_index_callback finish_index
build_id_index_for_table d db_dir schema id_column_index = finish_index (
    scan_table_rows_with_offsets (build_id_index_callback id_column_index) (length schema.columns) d
      db_dir schema.table_name (record { tree = bptree_init; max_id = 0; saw_row = false }))

-- the loop over the cache from the place `i` on
unfoldable pub find_table : List TableRuntime → Bytes → ℕ → Option (ℕ × TableRuntime)
find_table [] table_name i = none
find_table (t ∷ ts) table_name i =
    let rest = find_table ts table_name (i + 1) in
    if str_eq t.table_name table_name then some (i, t) else rest

abbrev pub Loaded : Type 0
Loaded = Disk × Result (ExecutionContext × ℕ × TableRuntime)

-- the table goes to the end of the cache
pub cache_table : ExecutionContext → TableRuntime → Result (ExecutionContext × ℕ × TableRuntime)
cache_table ctx table =
    ok (record ctx { tables = ctx.tables ++ (table ∷ []) }, length ctx.tables, table)

pub cache_indexed :
    ExecutionContext
    → TableRuntime
    → Result (BpTree × ℕ)
    → Result (ExecutionContext × ℕ × TableRuntime)
unfolding cache_table
cache_indexed ctx table (err e) = err (as_status e index_error)
cache_indexed ctx table (ok (tree, next_id)) =
    cache_table ctx (record table { id_index = tree; next_id = next_id; id_index_ready = true })

-- the table behind the loading of its schema, without its index
abbrev pub unindexed : TableSchema → Bytes → Option ℕ → TableRuntime
unindexed schema table_name id_column_index = record {
  table_name = table_name;
  schema = schema;
  has_id_column = elim id_column_index [ none ↦ false | some i ↦ true ];
  id_column_index = id_column_index;
  id_index_ready = false;
  next_id = 0;
  id_index = bptree_init;
}

-- behind the creation of the data file
pub load_index :
    Disk
    → ExecutionContext
    → TableSchema
    → Bytes
    → Option ℕ
    → Result (ExecutionContext × ℕ × TableRuntime)
unfolding cache_table cache_indexed build_id_index_for_table
load_index d ctx schema table_name none = cache_table ctx (unindexed schema table_name none)
load_index d ctx schema table_name (some i) =
    cache_indexed ctx (unindexed schema table_name (some i))
      (build_id_index_for_table d ctx.db_dir schema i)

pub load_data : ExecutionContext → TableSchema → Bytes → Disk × Result (Unit {0}) → Loaded
unfolding load_index
load_data ctx schema table_name (d, err e) = (d, err storage_error)
load_data ctx schema table_name (d, ok u) =
    (d, load_index d ctx schema table_name (schema_find_column_index schema (codes "id")))

pub load_table : Disk → ExecutionContext → Bytes → Result TableSchema → Loaded
unfolding load_data
load_table d ctx table_name (err e) = (d, err (as_status e schema_error))
load_table d ctx table_name (ok schema) =
    load_data ctx schema table_name (ensure_table_data_file d ctx.db_dir table_name)

unfoldable pub get_or_load_table_runtime : Disk → ExecutionContext → Bytes → Loaded
unfolding find_table load_table
get_or_load_table_runtime d ctx table_name = elim (find_table ctx.tables table_name 0) [
  | some (i, table) ↦ (d, ok (ctx, i, table))
  | none ↦ load_table d ctx table_name (load_table_schema d ctx.db_dir table_name)
]

preloaded : ExecutionContext → Loaded → Disk × ExecutionContext × Result (Unit {0})
preloaded ctx (d, err e) = (d, ctx, err e)
preloaded ctx (d, ok (ctx', i, table)) = (d, ctx', ok tt)

unfoldable pub runtime_preload_table :
    Disk → ExecutionContext → Bytes → Disk × ExecutionContext × Result (Unit {0})
unfolding preloaded
runtime_preload_table d ctx table_name = preloaded ctx (get_or_load_table_runtime d ctx table_name)

-- The tables are gone with all they hold.
unfoldable pub free_execution_context : ExecutionContext → ExecutionContext
free_execution_context ctx = record { db_dir = []; tables = [] }
