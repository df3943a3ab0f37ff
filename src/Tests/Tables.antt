-- ===== src/Tests/Tables.antt =====
-- A table with an id column and one row, of src/runtime.c and src/executor.c.
use threaded_db_api_server.Prelude.{◌≡◌, refl, true, false, none, some, [], ◌∷◌, arith, map}
use threaded_db_api_server.Prelude.Bytes.{codes, str_eq}
use threaded_db_api_server.Disk.{write_file, build_table_path}
use threaded_db_api_server.BpTree.{
  insert_node, insert_at_leaf, insert_into_leaf, leaf, BpTree, bptree_init, bptree_insert,
}
use threaded_db_api_server.Storage.Fields.{Row}
use threaded_db_api_server.Storage.Table.{append_row_to_table_with_offset}
use threaded_db_api_server.Executor.Select.{
  project_single_row, can_use_id_index, execute_select_with_id_index, execute_select_with_full_scan,
  where_index_of,
}
use threaded_db_api_server.Executor.Insert.{
  Inserted, insert_result, validate_insert_columns_for_auto_id, build_insert_row_with_generated_id,
  insert_into,
}
use threaded_db_api_server.Executor.Insert.Selects.{select-insert_into}
use threaded_db_api_server.Schema.{TableSchema, find_from, schema_find_column_index}
use threaded_db_api_server.Errors.{ok}
use threaded_db_api_server.Ids.{parse_canonical_positive_uint64}
use threaded_db_api_server.Runtime.{TableRuntime, ExecutionContext}
use threaded_db_api_server.Storage.Fields.Text.{strip_last}
use threaded_db_api_server.Runtime.Indexed.{Indexed, empty, add}
use threaded_db_api_server.Runtime.Cached.{IsCached}
use threaded_db_api_server.Executor.{
  value_string, value_number, InsertStatement, SelectStatement, QueryResult,
}
use threaded_db_api_server.Executor.Select.FullScan.{kept, projected, full_scan-HasRows}
use threaded_db_api_server.Executor.Select.SameRows.{select_with_id_index-full_scan}
use threaded_db_api_server.Executor.Insert.Keeps.{Outcome, insert_into-Outcome}
use threaded_db_api_server.Executor.Insert.Plain.{PlainOutcome, insert_into-PlainOutcome}
use threaded_db_api_server.Tests.Files.{dir, users, kim, one_row, one_row-HasRows}

abbrev pub user_schema : TableSchema
user_schema = record { table_name = users; columns = codes "id" ∷ codes "name" ∷ [] }

abbrev pub one_id : BpTree
one_id = record { root = some (leaf ((1, 0) ∷ [])); key_count = 1 }

abbrev user_table : TableRuntime
user_table = record {
  table_name = users;
  schema = user_schema;
  has_id_column = true;
  id_column_index = some 0;
  id_index_ready = true;
  next_id = 2;
  id_index = one_id;
}

abbrev in_dir : ExecutionContext
in_dir = record { db_dir = dir; tables = user_table ∷ [] }

pub id_at_zero : schema_find_column_index user_schema (codes "id") ≡ some 0
unfolding schema_find_column_index find_from str_eq
id_at_zero = refl

one_parses : parse_canonical_positive_uint64 (codes "1") ≡ some 1
unfolding parse_canonical_positive_uint64
one_parses = refl

one_inserted : bptree_insert bptree_init 1 0 ≡ some one_id
unfolding bptree_insert bptree_init
one_inserted = refl

one_Indexed : Indexed 0 ((0, strip_last kim) ∷ []) one_id 1
one_Indexed =
    add 0 1 (strip_last kim) (codes "1") empty refl one_parses one_inserted (omega arith)
      (omega arith)

user_table-IsCached : IsCached one_row dir user_table 0 1 ((0, strip_last kim) ∷ [])
user_table-IsCached = record {
  named = refl;
  stored = one_row-HasRows;
  id_column = id_at_zero;
  has_id = refl;
  at_index = refl;
  ready = refl;
  indexed = one_Indexed;
  next = refl;
  in_range = omega arith;
}

-- SELECT name FROM users WHERE id = 1
abbrev by_id : SelectStatement
by_id = record {
  table_name = users;
  select_all = false;
  columns = codes "name" ∷ [];
  where_clause = record {
    has_condition = true;
    column_name = codes "id";
    value = record { value_type = value_number; text = codes "1" };
  };
}

by_id_indexable : can_use_id_index user_table by_id ≡ some 1
unfolding can_use_id_index str_eq parse_canonical_positive_uint64
by_id_indexable = refl

select_with_id_index-full_scan_example :
    (result : QueryResult) × (execute_select_with_id_index one_row in_dir user_table by_id 1
      ≡ ok (result, true))
    × (execute_select_with_full_scan one_row in_dir user_table by_id ≡ ok (result, false))
select_with_id_index-full_scan_example =
    select_with_id_index-full_scan one_row in_dir user_table by_id 0 1 ((0, strip_last kim) ∷ [])
      user_table-IsCached by_id_indexable

full_scan-HasRows_example :
    execute_select_with_full_scan one_row in_dir user_table by_id
    ≡ ok (
      record {
        columns = codes "name" ∷ [];
        rows =
            map
              (projected user_schema by_id)
              (kept by_id (where_index_of user_table by_id) ((0, strip_last kim) ∷ []));
      },
      false,
    )
full_scan-HasRows_example = full_scan-HasRows one_row in_dir user_table by_id one_row-HasRows

-- INSERT INTO users VALUES ('Lee')
abbrev insert_lee : InsertStatement
insert_lee = record {
  table_name = users;
  columns = [];
  values = record { value_type = value_string; text = codes "Lee" } ∷ [];
}

insert_into-Outcome_example :
    Outcome one_row dir user_table 0 1
      ((0, strip_last kim) ∷ [])
      insert_lee
      (insert_into one_row in_dir user_table insert_lee)
insert_into-Outcome_example =
    insert_into-Outcome one_row in_dir user_table 0 1 ((0, strip_last kim) ∷ []) user_table-IsCached
      insert_lee refl ((refl, (refl, (refl, tt))), tt)

-- SELECT id FROM users WHERE id = 2
abbrev second : SelectStatement
second = record {
  table_name = users;
  select_all = true;
  columns = [];
  where_clause = record {
    has_condition = true;
    column_name = codes "id";
    value = record { value_type = value_number; text = codes "2" };
  };
}

abbrev after_lee : Inserted
after_lee = insert_into one_row in_dir user_table insert_lee

lee_inserted : after_lee ≡ (after_lee.0, after_lee.1, ok (insert_result true 2))
unfolding insert_into validate_insert_columns_for_auto_id build_insert_row_with_generated_id
    append_row_to_table_with_offset write_file build_table_path bptree_insert insert_node
    insert_at_leaf insert_into_leaf
lee_inserted = refl

second_indexable : can_use_id_index after_lee.1 second ≡ some 2
unfolding can_use_id_index str_eq parse_canonical_positive_uint64 insert_into
    validate_insert_columns_for_auto_id build_insert_row_with_generated_id
    append_row_to_table_with_offset write_file build_table_path bptree_insert insert_node
    insert_at_leaf insert_into_leaf
second_indexable = refl

select-insert_into_example :
    (row : Row) × (build_insert_row_with_generated_id user_schema 0 insert_lee 2 ≡ ok row)
    × (execute_select_with_id_index after_lee.0 in_dir after_lee.1 second 2
        ≡ ok (
          record {
            columns = after_lee.1.schema.columns;
            rows = project_single_row after_lee.1.schema second (strip_last row) ∷ [];
          },
          true,
        ))
select-insert_into_example =
    select-insert_into one_row in_dir user_table 0 1 ((0, strip_last kim) ∷ []) insert_lee second
      user_table-IsCached refl ((refl, (refl, (refl, tt))), tt) lee_inserted second_indexable

abbrev plain_table : TableRuntime
plain_table = record {
  table_name = users;
  schema = record { table_name = users; columns = codes "key" ∷ codes "name" ∷ [] };
  has_id_column = false;
  id_column_index = none;
  id_index_ready = false;
  next_id = 1;
  id_index = bptree_init;
}

-- INSERT INTO users (name, key) VALUES ('Lee', 2)
abbrev insert_named : InsertStatement
insert_named = record {
  table_name = users;
  columns = codes "name" ∷ codes "key" ∷ [];
  values =
      record { value_type = value_string; text = codes "Lee" }
      ∷ record { value_type = value_number; text = codes "2" }
      ∷ [];
}

insert_into-PlainOutcome_example :
    PlainOutcome one_row dir plain_table
      ((0, strip_last kim) ∷ [])
      insert_named
      (insert_into one_row in_dir plain_table insert_named)
insert_into-PlainOutcome_example =
    insert_into-PlainOutcome one_row in_dir plain_table ((0, strip_last kim) ∷ []) one_row-HasRows
      insert_named refl refl (omega arith) ((refl, (refl, (refl, tt))), ((refl, tt), tt))
