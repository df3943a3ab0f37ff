-- ===== src/Lexer/RoundTrip.antt =====
-- src/lexer.c on printed tokens.
use threaded_db_api_server.Prelude.{
  ℕ, zero, suc, ◌+◌, ◌≤◌, ◌<◌, ◌≡◌, refl, sym, ap, subst, inl, inr, ◌∙◌, false, List, [], ◌∷◌, ◌++◌,
  All, arith, length,
}
use threaded_db_api_server.Prelude.Bytes.{Bytes, is_space}
use threaded_db_api_server.Errors.{ok, ◌>>=◌}
use threaded_db_api_server.Lexer.{
  TokenType, Token, token, token_number, token_string, token_eof, tokenize_symbol, next_token,
  tokenize_loop, tokenize_sql, keyword_type, token_identifier, token_comma, token_lparen,
  token_rparen, token_semicolon, token_star, token_insert, token_into, token_values, token_select,
  token_from, token_where, token_equal,
}
use threaded_db_api_server.Lexer.Reads.{
  word-Reads, unsigned-Reads, minus-Reads, string-Reads, starts_digit-IsUnsigned,
}
use threaded_db_api_server.Lexer.Ends.{Leaves, next_token-Leaves}
use threaded_db_api_server.Lexer.Print.{
  quoted, print_text, print_tokens, IsNumber, IsWord, IsText, IsToken,
}

-- The printed token starts with a byte that is no space, and is read up to the space behind it.
abbrev Begins : Token → Bytes → Bytes → Type 0
Begins t printed rest =
    (c : ℕ) × (cs : Bytes) × (printed ≡ c ∷ cs)
    × (is_space c ≡ false)
    × (next_token c cs ≡ ok (t, b' ' ∷ rest))

word-Begins :
    (type : TokenType) (text rest : Bytes)
    → IsWord text
    → keyword_type text ≡ type
    → Begins (token type text) (text ++ b' ' ∷ rest) rest
word-Begins type [] rest h e = absurd h
word-Begins type (c ∷ cs) rest h e =
    (c, cs ++ b' ' ∷ rest, refl, ground (arith, h.0), word-Reads type c cs rest h e)

number-Begins :
    (text rest : Bytes)
    → IsNumber text
    → Begins (token token_number text) (text ++ b' ' ∷ rest) rest
number-Begins text rest (inr (digits, e, h)) =
    (b'-', digits ++ b' ' ∷ rest, rw e, refl, rw e (minus-Reads digits rest h))
number-Begins (c ∷ cs) rest (inl h) =
    let digit = starts_digit-IsUnsigned (c ∷ cs) h in
    (c, cs ++ b' ' ∷ rest, refl, ground (arith, digit), unsigned-Reads c cs rest h)
number-Begins [] rest (inl h) = absurd (cc (starts_digit-IsUnsigned [] h))

-- A symbol, whose text is its one byte.
symbol-Begins :
    (type : TokenType) (c : ℕ) (text rest : Bytes)
    → text ≡ c ∷ []
    → is_space c ≡ false
    → ((more : Bytes) → next_token c more ≡ ok (token type (c ∷ []), more))
    → Begins (token type text) (text ++ b' ' ∷ rest) rest
symbol-Begins type c text rest e s h =
    subst (λ t. Begins (token type t) (t ++ b' ' ∷ rest) rest) (sym e)
      (c, b' ' ∷ rest, refl, s, h (b' ' ∷ rest))

token-Begins :
    (type : TokenType) (text rest : Bytes)
    → IsText type text
    → Begins (token type text) (print_text type text (b' ' ∷ rest)) rest
unfolding next_token tokenize_symbol
token-Begins token_eof text rest h = absurd h
token-Begins token_string text rest h =
    (b'\'', quoted text (b' ' ∷ rest), refl, refl, string-Reads text rest)
token-Begins token_number text rest h = number-Begins text rest h
token-Begins token_comma text rest h = symbol-Begins token_comma b',' text rest h refl (λ m. refl)
token-Begins token_lparen text rest h = symbol-Begins token_lparen b'(' text rest h refl (λ m. refl)
token-Begins token_rparen text rest h = symbol-Begins token_rparen b')' text rest h refl (λ m. refl)
token-Begins token_semicolon text rest h =
    symbol-Begins token_semicolon b';' text rest h refl (λ m. refl)
token-Begins token_star text rest h = symbol-Begins token_star b'*' text rest h refl (λ m. refl)
token-Begins token_equal text rest h = symbol-Begins token_equal b'=' text rest h refl (λ m. refl)
token-Begins token_identifier text rest h = word-Begins token_identifier text rest h.0 h.1
token-Begins token_insert text rest h = word-Begins token_insert text rest h.0 h.1
token-Begins token_into text rest h = word-Begins token_into text rest h.0 h.1
token-Begins token_values text rest h = word-Begins token_values text rest h.0 h.1
token-Begins token_select text rest h = word-Begins token_select text rest h.0 h.1
token-Begins token_from text rest h = word-Begins token_from text rest h.0 h.1
token-Begins token_where text rest h = word-Begins token_where text rest h.0 h.1

loop_token :
    (f c : ℕ) (cs : Bytes) (lexed : Token × Bytes)
    → is_space c ≡ false
    → next_token c cs ≡ ok lexed
    → tokenize_loop (suc f) (c ∷ cs) ≡ (tokenize_loop f lexed.1 >>= λ tokens. ok (lexed.0 ∷ tokens))
unfolding tokenize_loop
loop_token f c cs lexed space reads = rw (space, tokenize_loop) (rw reads)

-- One turn of the loop for the space in front of a token, one for the token.
tokenize_loop-print_tokens :
    (ts : List Token) (fuel : ℕ)
    → All IsToken ts
    → length ts + length ts < fuel
    → tokenize_loop (suc fuel) (b' ' ∷ print_tokens ts) ≡ ok (ts ++ token token_eof [] ∷ [])
unfolding tokenize_loop print_tokens
tokenize_loop-print_tokens ts zero hs h = absurd (omega arith)
tokenize_loop-print_tokens [] (suc fuel) hs h = refl
tokenize_loop-print_tokens (t ∷ ts) (suc fuel) hs h =
    go fuel h (token-Begins t.token_type t.text (print_tokens ts) hs.0)
      (tokenize_loop-print_tokens ts)
  where
    go :
        (fuel : ℕ)
        → length (t ∷ ts) + length (t ∷ ts) < suc fuel
        → Begins t (print_text t.token_type t.text (b' ' ∷ print_tokens ts)) (print_tokens ts)
        → ((f : ℕ)
            → All IsToken ts
            → length ts + length ts < f
            → tokenize_loop (suc f) (b' ' ∷ print_tokens ts) ≡ ok (ts ++ token token_eof [] ∷ []))
        → tokenize_loop (suc fuel) (print_text t.token_type t.text (b' ' ∷ print_tokens ts))
          ≡ ok (t ∷ ts ++ token token_eof [] ∷ [])
    go zero h b ih = absurd (omega arith)
    go (suc f) h (c, cs, e, space, reads) ih = rw e (
        loop_token (suc f) c cs (t, b' ' ∷ print_tokens ts) space reads
        ∙ rw (ih f hs.1 (omega arith)))

print_tokens-length :
    (ts : List Token) → All IsToken ts → length ts + length ts ≤ length (print_tokens ts)
unfolding print_tokens
print_tokens-length [] h = omega arith
print_tokens-length (t ∷ ts) h =
    let (c, cs, e, _, reads) = token-Begins t.token_type t.text (print_tokens ts) h.0 in
    let left : suc (length (print_tokens ts)) ≤ length cs =
      subst (Leaves (length cs)) reads (next_token-Leaves c cs) in
    omega (arith, print_tokens-length ts h.1, ap length e, left)

-- Tokens with the texts of their types (`IsToken`: words, keywords in whatever case, numbers, any
-- strings, symbols), written out with a space behind each, are tokenized to the same tokens and
-- TOKEN_EOF.
pub tokenize_sql-print_tokens :
    (ts : List Token)
    → All IsToken ts
    → tokenize_sql (print_tokens ts) ≡ ok (ts ++ token token_eof [] ∷ [])
unfolding tokenize_sql tokenize_loop
tokenize_sql-print_tokens ts h =
    tokenize_loop-print_tokens ts (suc (length (print_tokens ts))) h
      (omega (arith, print_tokens-length ts h))
