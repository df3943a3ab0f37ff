-- ===== src/Storage/Table/Append.antt =====
-- src/storage.c: what appending a row does to a table, and what is read at its offset afterwards.
use native.Mathlib.Nat.{zero-add}
use mathlib.Core.List.{concat-ne-nil}
use threaded_db_api_server.Prelude.{
  ℕ, ◌≡◌, ◌≢◌, refl, ◌∙◌, false, Option, none, some, List, [], ◌∷◌, ◌++◌, length, drop, All,
  Bool-cases, inl, inr,
}
use threaded_db_api_server.Prelude.Bytes.{Bytes}
use threaded_db_api_server.Errors.{ok}
use threaded_db_api_server.Disk.{
  Disk, content_or_empty, write_file, file-write_file_self, file-write_file_ne, denied-write_file,
}
use threaded_db_api_server.Storage.Fields.{Row, write_values}
use threaded_db_api_server.Storage.Fields.Text.{AreTexts, strip_last}
use threaded_db_api_server.Storage.Lines.Extend.{IsTerminated, IsTerminated-append}
use threaded_db_api_server.Storage.Table.Rows.{Rows, Rows-append, Rows-read}
use threaded_db_api_server.Storage.Table.Scan.{HasRows, Rows-nil}
use threaded_db_api_server.Storage.Table.{
  data_path, row_text, append_row_to_table_with_offset, read_row_at_offset, read_row,
}

row_text-IsTerminated : (row : Row) → IsTerminated (row_text row)
unfolding row_text
row_text-IsTerminated row = IsTerminated-append (write_values 0 row) (b'\n' ∷ []) refl (λ e. cc)

row_text-ne-nil : (row : Row) → row_text row ≢ []
unfolding row_text
row_text-ne-nil row e = concat-ne-nil b'\n' (write_values 0 row) e

-- the disk after an append that goes through
abbrev appended : Disk → Bytes → Row → Disk
appended d path row =
    let content = content_or_empty (d.file path) in
    write_file (write_file d path content) path (content ++ row_text row)

append_lem :
    (d : Disk) (db_dir table_name : Bytes) (row : Row)
    → row ≢ []
    → d.denied (data_path db_dir table_name) ≡ false
    → append_row_to_table_with_offset d db_dir table_name row ≡ (
      appended d (data_path db_dir table_name) row,
      ok (length (content_or_empty (d.file (data_path db_dir table_name)))),
    )
unfolding append_row_to_table_with_offset
append_lem d db_dir table_name [] h a = absurd (h refl)
append_lem d db_dir table_name (v ∷ vs) h a = rw (a, denied-write_file, a, file-write_file_self)

-- the size of the file, 0 where there is none
abbrev pub data_size : Disk → Bytes → Bytes → ℕ
data_size d db_dir table_name = length (content_or_empty (d.file (data_path db_dir table_name)))

appended-HasRows :
    {d : Disk} {db_dir table_name : Bytes} {expected : ℕ} {rows : List (ℕ × Row)} (row : Row)
    → HasRows d db_dir table_name expected rows
    → AreTexts row
    → row ≢ []
    → length row ≡ expected
    → HasRows
        (appended d (data_path db_dir table_name) row)
        db_dir
        table_name
        expected
        (rows ++ ((data_size d db_dir table_name, strip_last row) ∷ []))
appended-HasRows {d} {db_dir} {table_name} row w texts full same = record {
  allowed = rw (denied-write_file, denied-write_file) w.allowed;
  terminated = rw file-write_file_self (
      IsTerminated-append (content_or_empty (d.file (data_path db_dir table_name))) (row_text row)
        (row_text-IsTerminated row) (row_text-ne-nil row));
  parses =
      rw (file-write_file_self, ← zero-add (data_size d db_dir table_name))
        (Rows-append row w.parses w.terminated texts full same);
}

-- Appending a row of C strings with a value for each column, one at least, to a well-formed table
-- (`HasRows`) succeeds, returns the old size of the file, and makes the table longer by that row,
-- but for a carriage return at the end of its last value.
pub append-HasRows :
    {d : Disk} {db_dir table_name : Bytes} {expected : ℕ} {rows : List (ℕ × Row)} (row : Row)
    → HasRows d db_dir table_name expected rows
    → AreTexts row
    → row ≢ []
    → length row ≡ expected
    → let (d', r) = append_row_to_table_with_offset d db_dir table_name row in
      (r ≡ ok (data_size d db_dir table_name))
      × HasRows d' db_dir table_name expected
          (rows ++ ((data_size d db_dir table_name, strip_last row) ∷ []))
append-HasRows {d} {db_dir} {table_name} row w texts full same =
    rw (append_lem d db_dir table_name row full w.allowed)
      (refl, appended-HasRows row w texts full same)

read_at-HasRows :
    (d : Disk) (db_dir table_name : Bytes) (expected : ℕ) (rows : List (ℕ × Row)) {content : Bytes}
    → d.denied (data_path db_dir table_name) ≡ false
    → d.file (data_path db_dir table_name) ≡ some content
    → All (λ (e : ℕ × Row). read_row (drop e.0 content) expected ≡ some e.1) rows
    → All (λ (e : ℕ × Row). read_row_at_offset d db_dir table_name e.0 expected ≡ ok e.1) rows
unfolding read_row_at_offset
read_at-HasRows d db_dir table_name expected [] a f h = tt
read_at-HasRows d db_dir table_name expected (e ∷ rows) a f h =
    (rw (a, f, h.0), read_at-HasRows d db_dir table_name expected rows a f h.1)

-- In a well-formed table (`HasRows`) every row is what is read at its offset.
pub read_row_at_offset-HasRows :
    {d : Disk} {db_dir table_name : Bytes} {expected : ℕ} {rows : List (ℕ × Row)}
    → HasRows d db_dir table_name expected rows
    → All (λ (e : ℕ × Row). read_row_at_offset d db_dir table_name e.0 expected ≡ ok e.1) rows
read_row_at_offset-HasRows {d} {db_dir} {table_name} {expected} {rows} w =
    go (d.file (data_path db_dir table_name)) refl w.parses
  where
    go :
        (f : Option Bytes)
        → d.file (data_path db_dir table_name) ≡ f
        → Rows expected 0 (content_or_empty f) rows
        → All (λ (e : ℕ × Row). read_row_at_offset d db_dir table_name e.0 expected ≡ ok e.1) rows
    go none e p = rw (Rows-nil p refl) tt
    go (some content) e p =
        read_at-HasRows d db_dir table_name expected rows w.allowed e (Rows-read content p refl)

All_last {ℓ κ} : {A : Type ℓ} (P : A → Type κ) (xs : List A) (x : A) → All P (xs ++ (x ∷ [])) → P x
All_last P [] x h = h.0
All_last P (y ∷ xs) x h = All_last P xs x h.1

-- If a row of C strings with a value for each column, one at least, is appended to a well-formed
-- table (`HasRows`), and an offset is returned, then the row is what is read at that offset, but
-- for a carriage return at the end of its last value.
pub read-append :
    {d : Disk} {db_dir table_name : Bytes} {expected : ℕ} {rows : List (ℕ × Row)} (row : Row)
    → HasRows d db_dir table_name expected rows
    → AreTexts row
    → row ≢ []
    → length row ≡ expected
    → {d' : Disk} {offset : ℕ}
    → append_row_to_table_with_offset d db_dir table_name row ≡ (d', ok offset)
    → read_row_at_offset d' db_dir table_name offset expected ≡ ok (strip_last row)
read-append {d} {db_dir} {table_name} {expected} {rows} row w texts full same {d'} {offset} e =
    let (r, w') = append-HasRows row w texts full same in
    let at_size : offset ≡ data_size d db_dir table_name = cc in
    rw (at_size) (
      All_last _ rows (data_size d db_dir table_name, strip_last row)
        (read_row_at_offset-HasRows (rw e at w')))

-- An append leaves the content at every path but that of its table's data file as it is.
pub append_other_file :
    (d : Disk) (db_dir table_name : Bytes) (row : Row) (p : Bytes)
    → data_path db_dir table_name ≢ p
    → (append_row_to_table_with_offset d db_dir table_name row).0.file p ≡ d.file p
unfolding append_row_to_table_with_offset
append_other_file d db_dir table_name [] p h = refl
append_other_file d db_dir table_name (v ∷ vs) p h =
    elim (Bool-cases (d.denied (data_path db_dir table_name))) [
      | inl a ↦ rw a
      | inr a ↦
          rw (a, denied-write_file, a) (file-write_file_ne _ _ _ p h ∙ file-write_file_ne d _ _ p h)
    ]
