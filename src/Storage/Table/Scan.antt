-- ===== src/Storage/Table/Scan.antt =====
-- src/storage.c: `scan_table_rows_with_offsets` ends, and hands the callback every row in order.
use mathlib.Core.Path.{fun_ext}
use threaded_db_api_server.Prelude.{
  ℕ, zero, suc, ◌+◌, ◌<◌, ◌≡◌, ◌≢◌, refl, ap, ◌∙◌, false, Option, none, some, List, [], ◌∷◌, ◌++◌,
  length, drop, arith, map, Bool-cases, Option-cases, inl, inr, length-drop, append_assoc,
  append-nil, sym,
}
use threaded_db_api_server.Prelude.Bytes.{Bytes}
use threaded_db_api_server.Errors.{ok}
use threaded_db_api_server.Disk.{Disk, content_or_empty}
use threaded_db_api_server.Storage.Fields.{Row, parse_line_into_row}
use threaded_db_api_server.Storage.Lines.{read_line}
use threaded_db_api_server.Storage.Lines.Bounds.{read_line_bounds}
use threaded_db_api_server.Storage.Lines.Extend.{IsTerminated, read_line-nil}
use threaded_db_api_server.Storage.Table.Rows.{Rows, eof, line}
use threaded_db_api_server.Storage.Table.{
  data_path, Signal, proceed, stop, failed, Scanned, finished, broken, out_of_fuel, visit,
  scan_loop, scan_file, scan_table_rows_with_offsets, read_all_rows_callback,
  read_all_rows_from_table,
}

module _ {ℓ} {S : Type ℓ} (callback : Row → ℕ → S → Signal S) (expected : ℕ) where
  -- The callback on each row in turn, as long as it wants to go on.
  unfoldable pub fold_rows : List (ℕ × Row) → S → Scanned S
  fold_rows [] s = finished s
  fold_rows ((pos, row) ∷ rows) s = elim (callback row pos s) [
    | proceed s' ↦ fold_rows rows s'
    | stop s' ↦ finished s'
    | failed s' ↦ broken s'
  ]

  pub scan_loop-Rows :
      (fuel : ℕ) (s : S) {pos : ℕ} {rest : Bytes} {rows : List (ℕ × Row)}
      → Rows expected pos rest rows
      → length rest < fuel
      → scan_loop callback expected fuel pos rest s ≡ fold_rows rows s
  unfolding scan_loop fold_rows
  scan_loop-Rows zero s w h = absurd (omega arith)
  scan_loop-Rows (suc fuel) s (eof e) h = rw (e, scan_loop)
  scan_loop-Rows (suc fuel) s (line {pos} {n} {rest} {l} {row} {rows} r p later) h =
      let (more, within) = read_line_bounds rest r in
      rw (r, scan_loop, p)
        (ap (λ (k : S → Scanned S). visit callback expected (some row) pos s k)
          (fun_ext λ s'. scan_loop-Rows fuel s' later (omega (arith, length-drop n rest))))

  visit-ends :
      (row : Option Row) (pos : ℕ) (s : S) (continue : S → Scanned S)
      → ((s' : S) → continue s' ≢ out_of_fuel)
      → visit callback expected row pos s continue ≢ out_of_fuel
  unfolding visit
  visit-ends none pos s continue h e = cc
  visit-ends (some row) pos s continue h e = go (callback row pos s) e
    where
      go :
          (r : Signal S)
          → (elim r [ proceed s' ↦ continue s' | stop s' ↦ finished s' | failed s' ↦ broken s' ])
            ≡ out_of_fuel
          → ⊥
      go (proceed s') e = h s' e
      go (stop s') e = cc
      go (failed s') e = cc

  scan_loop-ends :
      (fuel pos : ℕ) (rest : Bytes) (s : S)
      → length rest < fuel
      → scan_loop callback expected fuel pos rest s ≢ out_of_fuel
  unfolding scan_loop
  scan_loop-ends zero pos rest s h = absurd (omega arith)
  scan_loop-ends (suc fuel) pos rest s h = elim (Option-cases (read_line rest)) [
    | inl e ↦ rw (e, scan_loop) (λ q. cc)
    | inr ((l, n), e) ↦
        let (more, within) = read_line_bounds rest e in
        rw (e, scan_loop)
          (visit-ends (parse_line_into_row l expected) pos s _ λ s'.
            scan_loop-ends fuel (pos + n) (drop n rest) s' (omega (arith, length-drop n rest)))
  ]

  scan_file-ends : (file : Option Bytes) (s : S) → scan_file callback expected file s ≢ out_of_fuel
  unfolding scan_file
  scan_file-ends none s e = cc
  scan_file-ends (some content) s e =
      scan_loop-ends (suc (length content)) 0 content s (omega arith) e

  -- A scan ends on every disk, with every callback: one round for each byte of the file and one
  -- more are enough.
  pub scan_ends :
      (d : Disk) (db_dir table_name : Bytes) (s : S)
      → scan_table_rows_with_offsets callback expected d db_dir table_name s ≢ out_of_fuel
  unfolding scan_table_rows_with_offsets
  scan_ends d db_dir table_name s e = elim (Bool-cases (d.denied (data_path db_dir table_name))) [
    | inl p ↦ cc (rw p at e)
    | inr p ↦ scan_file-ends (d.file (data_path db_dir table_name)) s (rw p at e)
  ]

-- A table whose file can be opened, ends in a newline or is empty or missing, and parses to `rows`.
pub record HasRows (d : Disk) (db_dir table_name : Bytes) (expected : ℕ) (rows : List (ℕ × Row))
    : Type 0 where
  pub allowed : d.denied (data_path db_dir table_name) ≡ false
  pub terminated : IsTerminated (content_or_empty (d.file (data_path db_dir table_name)))
  pub parses : Rows expected 0 (content_or_empty (d.file (data_path db_dir table_name))) rows

pub Rows-nil :
    {expected pos : ℕ} {rest : Bytes} {rows : List (ℕ × Row)}
    → Rows expected pos rest rows
    → rest ≡ []
    → rows ≡ []
Rows-nil (eof e) n = refl
Rows-nil (line r p later) n = cc (rw n at r, read_line-nil)

module _ {ℓ} {S : Type ℓ} (callback : Row → ℕ → S → Signal S) (expected : ℕ) where
  scan_file-Rows :
      (file : Option Bytes) (s : S) {rows : List (ℕ × Row)}
      → Rows expected 0 (content_or_empty file) rows
      → scan_file callback expected file s ≡ fold_rows callback expected rows s
  unfolding scan_file fold_rows
  scan_file-Rows none s w = rw (Rows-nil w refl)
  scan_file-Rows (some content) s w =
      scan_loop-Rows callback expected (suc (length content)) s w (omega arith)

  -- A scan of a well-formed table (`HasRows`) hands the callback each row with its offset, in the
  -- order of the file, until the callback stops, and ends as the callback decides.
  pub scan-HasRows :
      {d : Disk} {db_dir table_name : Bytes} {rows : List (ℕ × Row)} (s : S)
      → HasRows d db_dir table_name expected rows
      → scan_table_rows_with_offsets callback expected d db_dir table_name s
        ≡ fold_rows callback expected rows s
  unfolding scan_table_rows_with_offsets
  scan-HasRows {d} {db_dir} {table_name} s w =
      rw w.allowed (scan_file-Rows (d.file (data_path db_dir table_name)) s w.parses)

abbrev pub row_of : ℕ × Row → Row
row_of (pos, row) = row

fold_rows-read_all :
    (expected : ℕ) (rows : List (ℕ × Row)) (out : List Row)
    → fold_rows read_all_rows_callback expected rows out ≡ finished (out ++ map row_of rows)
unfolding fold_rows read_all_rows_callback
fold_rows-read_all expected [] out = ap finished (sym (append-nil out))
fold_rows-read_all expected ((pos, row) ∷ rows) out =
    fold_rows-read_all expected rows (out ++ (row ∷ []))
    ∙ ap finished (append_assoc out (row ∷ []) (map row_of rows))

-- Reading a well-formed table (`HasRows`) gives its rows, in the order of the file.
pub read_all-HasRows :
    {d : Disk} {db_dir table_name : Bytes} {expected : ℕ} {rows : List (ℕ × Row)}
    → HasRows d db_dir table_name expected rows
    → read_all_rows_from_table d db_dir table_name expected ≡ ok (map row_of rows)
unfolding read_all_rows_from_table
read_all-HasRows {expected} {rows} w =
    rw (scan-HasRows read_all_rows_callback expected [] w, fold_rows-read_all expected rows [])
