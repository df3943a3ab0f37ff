-- ===== src/Tests/Files.antt =====
-- A file of one row, of src/storage.c.
use threaded_db_api_server.Prelude.{◌≡◌, ◌≢◌, refl, ◌++◌, false, none, some, [], ◌∷◌}
use threaded_db_api_server.Prelude.Bytes.{Bytes, codes, str_eq}
use threaded_db_api_server.Errors.{ok}
use threaded_db_api_server.Disk.{Disk, write_file, build_table_path}
use threaded_db_api_server.Storage.Fields.{Row, parse_line_into_row, write_values}
use threaded_db_api_server.Storage.Fields.RoundTrip.{parse-write_values}
use threaded_db_api_server.Storage.Fields.Text.{AreTexts, strip_last}
use threaded_db_api_server.Storage.Lines.{read_line}
use threaded_db_api_server.Storage.Lines.Extend.{read_line-nil}
use threaded_db_api_server.Storage.Table.{
  data_path, append_row_to_table_with_offset, ensure_table_data_file, after_ensure, write_row,
  read_row_at_offset, read_all_rows_callback, scan_table_rows_with_offsets, out_of_fuel,
}
use threaded_db_api_server.Storage.Table.Rows.{eof}
use threaded_db_api_server.Storage.Table.Scan.{HasRows, scan_ends}
use threaded_db_api_server.Storage.Table.Append.{append-HasRows, read-append}

abbrev pub no_files : Disk
no_files = record { file = λ p. none; denied = λ p. false }

abbrev pub dir : Bytes
dir = codes "db"

abbrev pub users : Bytes
users = codes "users"

abbrev pub kim : Row
kim = codes "1" ∷ codes "Kim|A" ∷ []

pub no_files-HasRows : HasRows no_files dir users 2 []
no_files-HasRows = record { allowed = refl; terminated = tt; parses = eof read_line-nil }

pub kim-AreTexts : AreTexts kim
kim-AreTexts = ((refl, tt), ((refl, (refl, (refl, (refl, (refl, tt))))), tt))

abbrev pub one_row : Disk
one_row = (append_row_to_table_with_offset no_files dir users kim).0

kim-ne-nil : kim ≢ []
kim-ne-nil e = cc

append-HasRows_example :
    let (d', r) = append_row_to_table_with_offset no_files dir users kim in
    (r ≡ ok 0) × HasRows d' dir users 2 ([] ++ ((0, strip_last kim) ∷ []))
append-HasRows_example = append-HasRows kim no_files-HasRows kim-AreTexts kim-ne-nil refl

pub one_row-HasRows : HasRows one_row dir users 2 ((0, strip_last kim) ∷ [])
one_row-HasRows = (append-HasRows kim no_files-HasRows kim-AreTexts kim-ne-nil refl).1

appended_kim : append_row_to_table_with_offset no_files dir users kim ≡ (one_row, ok 0)
unfolding append_row_to_table_with_offset ensure_table_data_file after_ensure write_row write_file
    build_table_path str_eq
appended_kim = refl

read-append_example : read_row_at_offset one_row dir users 0 2 ≡ ok (strip_last kim)
read-append_example = read-append kim no_files-HasRows kim-AreTexts kim-ne-nil refl appended_kim

other_path : data_path dir users ≢ codes "x"
unfolding build_table_path
other_path e = cc

scan_ends_example :
    scan_table_rows_with_offsets read_all_rows_callback 2 one_row dir users [] ≢ out_of_fuel
scan_ends_example = scan_ends read_all_rows_callback 2 one_row dir users []

parse-write_values_example : parse_line_into_row (write_values 0 kim) 2 ≡ some kim
parse-write_values_example = parse-write_values (codes "1") (codes "Kim|A" ∷ []) 2 refl

read_two : read_line (codes "ab") ≡ some (codes "ab", 2)
unfolding read_line
read_two = refl
