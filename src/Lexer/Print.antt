-- ===== src/Lexer/Print.antt =====
-- Tokens written out as SQL text, a space behind each.
use threaded_db_api_server.Prelude.{
  ◌≡◌, ◌⊎◌, ◌||◌, true, List, [], ◌∷◌, ◌++◌, All, ◌==◌, if◌then◌else◌,
}
use threaded_db_api_server.Prelude.Bytes.{Bytes, codes, is_digit, is_alpha}
use threaded_db_api_server.Lexer.{
  TokenType, Token, token_eof, token_string, token_number, token_comma, token_lparen, token_rparen,
  token_semicolon, token_star, token_insert, token_into, token_values, token_select, token_from,
  token_where, token_equal, keyword_type,
}
use threaded_db_api_server.Lexer.Scan.{is_word}

-- The text of a keyword or of a symbol.
abbrev pub spelling : TokenType → Bytes
spelling token_comma = codes ","
spelling token_lparen = codes "("
spelling token_rparen = codes ")"
spelling token_semicolon = codes ";"
spelling token_star = codes "*"
spelling token_equal = codes "="
spelling token_insert = codes "INSERT"
spelling token_into = codes "INTO"
spelling token_values = codes "VALUES"
spelling token_select = codes "SELECT"
spelling token_from = codes "FROM"
spelling token_where = codes "WHERE"
spelling _ = []

-- The body of a string, its quotes doubled, with the quote that closes it, in front of the rest.
unfoldable pub quoted : Bytes → Bytes → Bytes
quoted [] rest = b'\'' ∷ rest
quoted (c ∷ cs) rest =
    let more = quoted cs rest in if c == b'\'' then b'\'' ∷ b'\'' ∷ more else c ∷ more

abbrev pub print_text : TokenType → Bytes → Bytes → Bytes
print_text token_string text rest = b'\'' ∷ quoted text rest
print_text _ text rest = text ++ rest

unfoldable pub print_tokens : List Token → Bytes
print_tokens [] = []
print_tokens (t ∷ ts) = print_text t.token_type t.text (b' ' ∷ print_tokens ts)

abbrev pub HasByte : Bytes → Type 0
HasByte [] = ⊥
HasByte (c ∷ cs) = Unit

abbrev pub IsDigits : Bytes → Type 0
IsDigits cs = HasByte cs × All (λ c. is_digit c ≡ true) cs

-- Digits, and digits behind a dot where there is one.
abbrev pub IsUnsigned : Bytes → Type 0
IsUnsigned cs =
    IsDigits cs
    ⊎ ((whole : Bytes) × (fraction : Bytes) × (cs ≡ whole ++ b'.' ∷ fraction)
        × IsDigits whole
        × IsDigits fraction)

abbrev pub IsNumber : Bytes → Type 0
IsNumber cs = IsUnsigned cs ⊎ ((digits : Bytes) × (cs ≡ b'-' ∷ digits) × IsUnsigned digits)

-- A letter or an underscore, then letters, digits and underscores.
abbrev pub IsWord : Bytes → Type 0
IsWord [] = ⊥
IsWord (c ∷ cs) = ((is_alpha c || c == b'_') ≡ true) × All (λ d. is_word d ≡ true) cs

-- The texts that a token of the type has.
abbrev pub IsText : TokenType → Bytes → Type 0
IsText token_eof text = ⊥
IsText token_string text = Unit
IsText token_number text = IsNumber text
IsText token_comma text = text ≡ spelling token_comma
IsText token_lparen text = text ≡ spelling token_lparen
IsText token_rparen text = text ≡ spelling token_rparen
IsText token_semicolon text = text ≡ spelling token_semicolon
IsText token_star text = text ≡ spelling token_star
IsText token_equal text = text ≡ spelling token_equal
IsText type text = IsWord text × (keyword_type text ≡ type)

abbrev pub IsToken : Token → Type 0
IsToken t = IsText t.token_type t.text
