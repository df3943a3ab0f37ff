-- ===== src/Executor.antt =====
-- src/executor.c, include/ast.h, include/result.h: INSERT and SELECT on the cached tables.
--
-- Memory does not run out and no pointer is NULL. A message for `errbuf` is left out: a failure is
-- its status code.
pub mod Insert
pub mod Select
use threaded_db_api_server.Prelude.{ℕ, Bool, true, false, Option, List, []}
use threaded_db_api_server.Prelude.Bytes.{Bytes}
use threaded_db_api_server.Errors.{
  Status, schema_error, storage_error, index_error, Result, ok, err,
}
use threaded_db_api_server.Storage.Fields.{Row}

pub data ValueType : Type 0 where
  value_string value_number : ValueType

-- `LiteralValue`, whose `type` is a word of the language
pub record LiteralValue : Type 0 where
  pub value_type : ValueType
  pub text : Bytes

-- `column_count` and `value_count` are the lengths
pub record InsertStatement : Type 0 where
  pub table_name : Bytes
  pub columns : List Bytes
  pub values : List LiteralValue

pub record WhereClause : Type 0 where
  pub has_condition : Bool
  pub column_name : Bytes
  pub value : LiteralValue

pub record SelectStatement : Type 0 where
  pub table_name : Bytes
  pub select_all : Bool
  pub columns : List Bytes
  pub where_clause : WhereClause

pub data Statement : Type 0 where
  insert_stmt : InsertStatement → Statement
  select_stmt : SelectStatement → Statement

pub record QueryResult : Type 0 where
  pub columns : List Bytes
  pub rows : List Row

pub data ExecResultType : Type 0 where
  result_insert result_select : ExecResultType

pub record ExecResult : Type 0 where
  pub result_type : ExecResultType
  pub affected_rows : ℕ
  pub query_result : QueryResult
  pub used_index : Bool
  pub has_generated_id : Bool
  pub generated_id : ℕ

abbrev pub empty_query_result : QueryResult
empty_query_result = record { columns = []; rows = [] }

unfoldable pub free_exec_result : ExecResult → ExecResult
free_exec_result result = record {
  result_type = result.result_type;
  affected_rows = 0;
  query_result = empty_query_result;
  used_index = false;
  has_generated_id = false;
  generated_id = 0;
}
