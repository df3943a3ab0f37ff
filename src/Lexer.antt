-- ===== src/Lexer.antt =====
-- src/lexer.c and include/lexer.h: SQL text to tokens.
--
-- `sql + *index` is the list of the bytes from the index on, whose end is the NUL, and a function
-- that moves the index returns what is left. The token array is a list, its growth and memory that
-- runs out left out.
pub mod Scan
pub mod Ends
pub mod Print
pub mod Reads
pub mod RoundTrip
use threaded_db_api_server.Prelude.{
  ℕ, zero, suc, ◌<◌, ◌≡◌, Bool, ◌&&◌, ◌||◌, List, [], ◌∷◌, ◌==◌, if◌then◌else◌, length,
}
use threaded_db_api_server.Prelude.Bytes.{Bytes, codes, is_space, is_digit, is_alpha, to_upper}
use threaded_db_api_server.Errors.{Status, out_of_rounds, lex_error, Result, ok, err, ◌>>=◌}
use Scan.{put, scan_word, scan_number, scan_string, starts_digit}

pub data TokenType : Type 0 where
  token_eof token_identifier token_string token_number : TokenType
  token_comma token_lparen token_rparen token_semicolon token_star : TokenType
  token_insert token_into token_values token_select token_from token_where : TokenType
  token_equal : TokenType

-- The value of the enumerator.
abbrev pub type_code : TokenType → ℕ
type_code token_eof = 0
type_code token_identifier = 1
type_code token_string = 2
type_code token_number = 3
type_code token_comma = 4
type_code token_lparen = 5
type_code token_rparen = 6
type_code token_semicolon = 7
type_code token_star = 8
type_code token_insert = 9
type_code token_into = 10
type_code token_values = 11
type_code token_select = 12
type_code token_from = 13
type_code token_where = 14
type_code token_equal = 15

-- `==` on token types
infix 50 ◌is◌
abbrev pub ◌is◌ : TokenType → TokenType → Bool
a is b = type_code a == type_code b

-- `Token`, whose `type` is a word of the language
pub record Token : Type 0 where
  pub token_type : TokenType
  pub text : Bytes

abbrev pub token : TokenType → Bytes → Token
token t s = record { token_type = t; text = s }

abbrev chars_equal_ignore_case : ℕ → ℕ → Bool
chars_equal_ignore_case a b = to_upper a == to_upper b

unfoldable pub strings_equal_ignore_case : Bytes → Bytes → Bool
strings_equal_ignore_case [] [] = Bool.true
strings_equal_ignore_case (a ∷ lhs) (b ∷ rhs) =
    chars_equal_ignore_case a b && strings_equal_ignore_case lhs rhs
strings_equal_ignore_case _ _ = Bool.false

unfoldable pub keyword_type : Bytes → TokenType
keyword_type text =
    if strings_equal_ignore_case text (codes "INSERT")
    then token_insert
    else if strings_equal_ignore_case text (codes "INTO")
    then token_into
    else if strings_equal_ignore_case text (codes "VALUES")
    then token_values
    else if strings_equal_ignore_case text (codes "SELECT")
    then token_select
    else if strings_equal_ignore_case text (codes "FROM")
    then token_from
    else if strings_equal_ignore_case text (codes "WHERE")
    then token_where
    else token_identifier

-- A token, and the bytes behind it.
abbrev pub Lexed : Type 0
Lexed = Result (Token × Bytes)

unfoldable pub tokenize_identifier : Bytes → Lexed
tokenize_identifier cs = let word = scan_word cs in ok (token (keyword_type word.0) word.0, word.1)

unfoldable pub tokenize_number : Bytes → Lexed
tokenize_number [] = ok (token token_number [], [])
tokenize_number (c ∷ cs) =
    let number =
      if c == b'-'
      then scan_number Bool.false cs >>= (λ s. ok (put c s))
      else scan_number Bool.false (c ∷ cs) in
    number >>= λ s. ok (token token_number s.0, s.1)

-- `cs` stands behind the quote that opens the string.
unfoldable pub tokenize_string : Bytes → Lexed
tokenize_string cs = scan_string cs >>= λ string. ok (token token_string string.0, string.1)

unfoldable pub tokenize_symbol : ℕ → Bytes → Lexed
tokenize_symbol c cs =
    if c == b','
    then ok (token token_comma (c ∷ []), cs)
    else if c == b'('
    then ok (token token_lparen (c ∷ []), cs)
    else if c == b')'
    then ok (token token_rparen (c ∷ []), cs)
    else if c == b';'
    then ok (token token_semicolon (c ∷ []), cs)
    else if c == b'*'
    then ok (token token_star (c ∷ []), cs)
    else if c == b'='
    then ok (token token_equal (c ∷ []), cs)
    else err lex_error

-- The tests on `ch`, which is not a space, with the bytes behind it.
unfoldable pub next_token : ℕ → Bytes → Lexed
next_token c cs =
    if is_alpha c || c == b'_'
    then tokenize_identifier (c ∷ cs)
    else if is_digit c || (c == b'-' && starts_digit cs)
    then tokenize_number (c ∷ cs)
    else if c == b'\''
    then tokenize_string cs
    else tokenize_symbol c cs

-- The loop of `tokenize_sql`, on fuel: without fuel it fails as the lexer never does.
unfoldable pub tokenize_loop : ℕ → Bytes → Result (List Token)
tokenize_loop zero cs = err out_of_rounds
tokenize_loop (suc fuel) [] = ok (token token_eof [] ∷ [])
tokenize_loop (suc fuel) (c ∷ cs) = elim (is_space c) [
  | Bool.true ↦ tokenize_loop fuel cs
  | Bool.false ↦
      next_token c cs >>= λ lexed. tokenize_loop fuel lexed.1 >>= λ tokens. ok (lexed.0 ∷ tokens)
]

unfoldable pub tokenize_sql : Bytes → Result (List Token)
tokenize_sql sql = tokenize_loop (suc (length sql)) sql

pub free_token_array : List Token → List Token
free_token_array tokens = []

pub token_type_name : TokenType → Bytes
token_type_name token_eof = codes "TOKEN_EOF"
token_type_name token_identifier = codes "TOKEN_IDENTIFIER"
token_type_name token_string = codes "TOKEN_STRING"
token_type_name token_number = codes "TOKEN_NUMBER"
token_type_name token_comma = codes "TOKEN_COMMA"
token_type_name token_lparen = codes "TOKEN_LPAREN"
token_type_name token_rparen = codes "TOKEN_RPAREN"
token_type_name token_semicolon = codes "TOKEN_SEMICOLON"
token_type_name token_star = codes "TOKEN_STAR"
token_type_name token_insert = codes "TOKEN_INSERT"
token_type_name token_into = codes "TOKEN_INTO"
token_type_name token_values = codes "TOKEN_VALUES"
token_type_name token_select = codes "TOKEN_SELECT"
token_type_name token_from = codes "TOKEN_FROM"
token_type_name token_where = codes "TOKEN_WHERE"
token_type_name token_equal = codes "TOKEN_EQUAL"
