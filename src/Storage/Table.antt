-- ===== src/Storage/Table.antt =====
-- src/storage.c: the `.data` file of a table: appending a row, scanning, and reading one row.
pub mod Rows
pub mod Scan
pub mod Append
pub mod Ensure
use threaded_db_api_server.Prelude.{
  ℕ, zero, suc, ◌+◌, Bool, true, false, Option, none, some, List, [], ◌∷◌, ◌++◌, if◌then◌else◌,
  length, drop,
}
use threaded_db_api_server.Prelude.Bytes.{Bytes, codes}
use threaded_db_api_server.Errors.{Status, storage_error, out_of_rounds, Result, ok, err, or_fail}
use threaded_db_api_server.Disk.{Disk, write_file, content_or_empty, build_table_path}
use threaded_db_api_server.Storage.Fields.{Row, parse_line_into_row, write_values}
use threaded_db_api_server.Storage.Lines.{read_line}

abbrev pub data_path : Bytes → Bytes → Bytes
data_path db_dir table_name = build_table_path db_dir table_name (codes ".data")

unfoldable pub ensure_table_data_file : Disk → Bytes → Bytes → Disk × Result (Unit {0})
ensure_table_data_file d db_dir table_name =
    let path = data_path db_dir table_name in
    if d.denied path
    then (d, err storage_error)
    else (write_file d path (content_or_empty (d.file path)), ok tt)

-- what goes to the file for one row
pub row_text : Row → Bytes
row_text row = write_values 0 row ++ (b'\n' ∷ [])

-- behind the opening with "ab+": the row goes to the end, where the offset is taken first
unfoldable pub write_row : Disk → Bytes → Row → Disk × Result ℕ
unfolding row_text
write_row d path row =
    let content = content_or_empty (d.file path) in
    if d.denied path
    then (d, err storage_error)
    else (write_file d path (content ++ row_text row), ok (length content))

unfoldable pub after_ensure : Bytes → Row → Disk × Result (Unit {0}) → Disk × Result ℕ
unfolding write_row
after_ensure path row (d, err e) = (d, err e)
after_ensure path row (d, ok u) = write_row d path row

unfoldable pub append_row_to_table_with_offset : Disk → Bytes → Bytes → Row → Disk × Result ℕ
unfolding ensure_table_data_file after_ensure
append_row_to_table_with_offset d db_dir table_name [] = (d, err storage_error)
append_row_to_table_with_offset d db_dir table_name (v ∷ vs) =
    after_ensure (data_path db_dir table_name) (v ∷ vs) (ensure_table_data_file d db_dir table_name)

-- What a `RowScanCallback` returns, 0, 1 or -1, with its `user_data` as it leaves it.
pub data Signal {ℓ} (S : Type ℓ) : Type ℓ where
  proceed stop failed : S → Signal S

-- STATUS_OK or STATUS_STORAGE_ERROR, with the `user_data`
pub data Scanned {ℓ} (S : Type ℓ) : Type ℓ where
  finished broken : S → Scanned S
  out_of_fuel : Scanned S

module _ {ℓ} {S : Type ℓ} (callback : Row → ℕ → S → Signal S) (expected : ℕ) where
  -- the rest of a round: `continue` is what the loop does next
  pub visit : Option Row → ℕ → S → (S → Scanned S) → Scanned S
  visit none pos s continue = broken s
  visit (some row) pos s continue = elim (callback row pos s) [
    | proceed s' ↦ continue s'
    | stop s' ↦ finished s'
    | failed s' ↦ broken s'
  ]

  -- `pos` is the file position, `rest` what stands behind it
  pub scan_loop : ℕ → ℕ → Bytes → S → Scanned S
  unfolding visit
  scan_loop zero pos rest s = out_of_fuel
  scan_loop (suc fuel) pos rest s = elim (read_line rest) [
    | none ↦ finished s
    | some (line, n) ↦
        visit (parse_line_into_row line expected) pos s
          (λ s'. scan_loop fuel (pos + n) (drop n rest) s')
  ]

  -- the file found, or not there
  scan_file : Option Bytes → S → Scanned S
  unfolding scan_loop
  scan_file none s = finished s
  scan_file (some content) s = scan_loop (suc (length content)) 0 content s

  pub scan_table_rows_with_offsets : Disk → Bytes → Bytes → S → Scanned S
  unfolding scan_file
  scan_table_rows_with_offsets d db_dir table_name s =
      let path = data_path db_dir table_name in
      if d.denied path then broken s else scan_file (d.file path) s

-- the line at the file position as a row
pub read_row : Bytes → ℕ → Option Row
read_row rest expected = elim (read_line rest) [
  | none ↦ none
  | some (line, n) ↦ parse_line_into_row line expected
]

pub read_row_at_offset : Disk → Bytes → Bytes → ℕ → ℕ → Result Row
unfolding read_row
read_row_at_offset d db_dir table_name offset expected =
    let path = data_path db_dir table_name in
    if d.denied path then err storage_error else elim (d.file path) [
      | none ↦ err storage_error
      | some content ↦ or_fail (read_row (drop offset content) expected) storage_error
    ]

-- the callback of `read_all_rows_from_table`
pub read_all_rows_callback : Row → ℕ → List Row → Signal (List Row)
read_all_rows_callback row offset rows = proceed (rows ++ (row ∷ []))

-- the rows that are out when the scan ends
pub scanned_rows : Scanned (List Row) → Result (List Row)
scanned_rows (finished rows) = ok rows
scanned_rows (broken rows) = err storage_error
scanned_rows out_of_fuel = err out_of_rounds

pub read_all_rows_from_table : Disk → Bytes → Bytes → ℕ → Result (List Row)
unfolding scan_table_rows_with_offsets read_all_rows_callback scanned_rows
read_all_rows_from_table d db_dir table_name expected =
    scanned_rows
      (scan_table_rows_with_offsets read_all_rows_callback expected d db_dir table_name [])

append_status : Disk × Result ℕ → Disk × Result (Unit {0})
append_status (d, err e) = (d, err e)
append_status (d, ok row_offset) = (d, ok tt)

-- The offset is dropped.
unfoldable pub append_row_to_table : Disk → Bytes → Bytes → Row → Disk × Result (Unit {0})
unfolding append_status
append_row_to_table d db_dir table_name row =
    append_status (append_row_to_table_with_offset d db_dir table_name row)
