-- ===== src/Storage/Table/Rows.antt =====
-- src/storage.c: the rows that a file holds, with their offsets.
use threaded_db_api_server.Prelude.{
  ℕ, suc, ◌+◌, ◌≡◌, ◌≢◌, refl, sym, ap, ◌∙◌, none, some, List, [], ◌∷◌, ◌++◌, length, drop, arith,
  All, length-drop, length-append, append_assoc, drop-drop, drop-append_le, drop-append, append-nil,
}
use threaded_db_api_server.Prelude.Bytes.{Bytes}
use threaded_db_api_server.Storage.Fields.{Row, parse_line_into_row, write_values}
use threaded_db_api_server.Storage.Fields.RoundTrip.{parse-write_values}
use threaded_db_api_server.Storage.Fields.Text.{
  AreTexts, strip_last, strip_cr-write_values, write_values-NoNewline, write_values-NoNul,
}
use threaded_db_api_server.Storage.Lines.{strip_cr, read_line}
use threaded_db_api_server.Storage.Lines.Bounds.{read_line-append, read_line_bounds}
use threaded_db_api_server.Storage.Lines.Extend.{
  IsTerminated, IsTerminated-drop, read_line-extend, read_line-eq-none, read_line-ne-nil,
  read_line-nil,
}
use threaded_db_api_server.Storage.Table.{read_row, row_text}

-- From the position `pos` on, where the bytes `rest` stand, the lines parse to these rows.
pub data Rows (expected : ℕ) : ℕ → Bytes → List (ℕ × Row) → Type 0 where
  eof : {pos : ℕ} {rest : Bytes} → read_line rest ≡ none → Rows expected pos rest []
  line :
      {pos n : ℕ} {rest l : Bytes} {row : Row} {rows : List (ℕ × Row)}
      → read_line rest ≡ some (l, n)
      → parse_line_into_row l expected ≡ some row
      → Rows expected (pos + n) (drop n rest) rows
      → Rows expected pos rest ((pos, row) ∷ rows)

-- The text of a row is one line.
pub row_text-line :
    (row : Row) (rest : Bytes)
    → AreTexts row
    → read_line (row_text row ++ rest)
      ≡ some (write_values 0 (strip_last row), length (row_text row))
unfolding row_text
row_text-line row rest h =
    ap read_line (append_assoc (write_values 0 row) (b'\n' ∷ []) rest)
    ∙ read_line-append (write_values 0 row) rest (write_values-NoNewline 0 row)
        (write_values-NoNul 0 row h)
    ∙ rw (strip_cr-write_values 0 row, length-append (write_values 0 row) (b'\n' ∷ []))
        (ap (λ n. some (write_values 0 (strip_last row), n)) (omega arith))

pub strip_last-length : (row : Row) → length (strip_last row) ≡ length row
strip_last-length [] = refl
strip_last-length (v ∷ []) = refl
strip_last-length (v ∷ w ∷ vs) = ap suc (strip_last-length (w ∷ vs))

-- The text of a row with as many values as the table has columns parses to the row, but for a
-- carriage return at the end of its last value.
pub parse_row_text :
    (row : Row) (expected : ℕ)
    → row ≢ []
    → length row ≡ expected
    → parse_line_into_row (write_values 0 (strip_last row)) expected ≡ some (strip_last row)
parse_row_text [] expected h e = absurd (h refl)
parse_row_text (v ∷ []) expected h e = parse-write_values (strip_cr v) [] expected e
parse_row_text (v ∷ w ∷ vs) expected h e =
    parse-write_values v (strip_last (w ∷ vs)) expected (ap suc (strip_last-length (w ∷ vs)) ∙ e)

-- Each row stands at its offset: reading there gives it.
pub Rows-read :
    {expected pos : ℕ} {rest : Bytes} {rows : List (ℕ × Row)} (whole : Bytes)
    → Rows expected pos rest rows
    → rest ≡ drop pos whole
    → All (λ (e : ℕ × Row). read_row (drop e.0 whole) expected ≡ some e.1) rows
unfolding read_row
Rows-read whole (eof e) at = tt
Rows-read whole (line {pos} {n} {rest} {l} {row} r p later) at =
    (rw (← at, read_row, r) p, Rows-read whole later (ap (drop n) at ∙ drop-drop n pos whole))

Rows-single :
    {expected : ℕ} (pos : ℕ) (row : Row)
    → AreTexts row
    → row ≢ []
    → length row ≡ expected
    → Rows expected pos (row_text row) ((pos, strip_last row) ∷ [])
Rows-single {expected} pos row h ne len =
    line (ap read_line (sym (append-nil (row_text row))) ∙ row_text-line row [] h)
      (parse_row_text row expected ne len)
      (rw
        (ap (drop (length (row_text row))) (sym (append-nil (row_text row)))
          ∙ drop-append (row_text row) [])
        (eof read_line-nil))

Rows-append_eof :
    {expected : ℕ} (pos : ℕ) (row : Row) (rest : Bytes)
    → read_line rest ≡ none
    → AreTexts row
    → row ≢ []
    → length row ≡ expected
    → Rows expected pos (rest ++ row_text row) ((pos + length rest, strip_last row) ∷ [])
Rows-append_eof pos row [] e h ne len =
    let same : pos + 0 ≡ pos = omega arith in rw same (Rows-single pos row h ne len)
Rows-append_eof pos row (c ∷ cs) e h ne len = cc (read_line-eq-none (c ∷ cs) e)

-- A row appended to a terminated file is one row more, at the old end of the file.
pub Rows-append :
    {expected pos : ℕ} {rest : Bytes} {rows : List (ℕ × Row)} (row : Row)
    → Rows expected pos rest rows
    → IsTerminated rest
    → AreTexts row
    → row ≢ []
    → length row ≡ expected
    → Rows expected pos (rest ++ row_text row) (rows ++ ((pos + length rest, strip_last row) ∷ []))
Rows-append row (eof {pos} {rest} e) t h ne len = Rows-append_eof pos row rest e h ne len
Rows-append row (line {pos} {n} {rest} {l} {row = first} {rows} r p later) t h ne len =
    let (more, within) = read_line_bounds rest r in
    let same : pos + n + length (drop n rest) ≡ pos + length rest =
      omega (arith, length-drop n rest) in
    line (read_line-extend rest (row_text row) (read_line-ne-nil rest r) t ∙ r) p (
      rw (drop-append_le n rest (row_text row) within, ← same)
        (Rows-append row later (IsTerminated-drop n rest t) h ne len))
