-- ===== src/Lexer/Scan.antt =====
-- src/lexer.c: the loops that read a word, a number and a string.
use threaded_db_api_server.Prelude.{
  ℕ, Bool, true, false, not, ◌&&◌, ◌||◌, [], ◌∷◌, ◌==◌, if◌then◌else◌,
}
use threaded_db_api_server.Prelude.Bytes.{Bytes, is_alnum, is_digit}
use threaded_db_api_server.Errors.{lex_error, Result, ok, err, ◌>>=◌}

abbrev pub is_word : ℕ → Bool
is_word c = is_alnum c || c == b'_'

abbrev pub starts_digit : Bytes → Bool
starts_digit [] = false
starts_digit (c ∷ cs) = is_digit c

-- What a loop read, and the bytes where it stopped.
abbrev pub Scanned : Type 0
Scanned = Bytes × Bytes

abbrev pub put : ℕ → Scanned → Scanned
put c s = (c ∷ s.0, s.1)

unfoldable pub scan_word : Bytes → Scanned
scan_word [] = ([], [])
scan_word (c ∷ cs) =
    let rest = scan_word cs in if◌then◌else◌ {A = Scanned} (is_word c) (put c rest) ([], c ∷ cs)

unfoldable pub scan_number : Bool → Bytes → Result Scanned
scan_number seen_dot [] = ok ([], [])
scan_number seen_dot (c ∷ cs) =
    let rest = scan_number seen_dot cs >>= λ s. ok (put c s) in
    let behind_dot = scan_number true cs >>= λ s. ok (put c s) in
    if is_digit c
    then rest
    else if not seen_dot && c == b'.'
    then (if starts_digit cs then behind_dot else err lex_error)
    else ok ([], c ∷ cs)

-- The body of a string up to the quote that closes it; two quotes stand for one.
unfoldable pub scan_string : Bytes → Result Scanned
scan_string [] = err lex_error
scan_string (c ∷ []) = if c == b'\'' then ok ([], []) else err lex_error
scan_string (c ∷ d ∷ cs) =
    let behind_pair = scan_string cs >>= λ s. ok (put c s) in
    let rest = scan_string (d ∷ cs) >>= λ s. ok (put c s) in
    if c == b'\'' then (if d == b'\'' then behind_pair else ok ([], d ∷ cs)) else rest
