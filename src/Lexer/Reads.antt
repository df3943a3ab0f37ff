-- ===== src/Lexer/Reads.antt =====
-- src/lexer.c on the printed text of one token.
use threaded_db_api_server.Prelude.{
  ℕ, ◌≡◌, refl, inl, inr, ◌∙◌, Bool, true, false, [], ◌∷◌, ◌++◌, ◌||◌, ◌==◌, append_assoc,
  append-nil, Bool-cases, ==_iff, ◌⊎◌, All, arith,
}
use threaded_db_api_server.Prelude.Bytes.{Bytes, is_digit, is_alpha}
use threaded_db_api_server.Errors.{ok, ◌>>=◌}
use threaded_db_api_server.Lexer.{
  TokenType, token, token_number, token_string, tokenize_identifier, tokenize_number,
  tokenize_string, next_token, keyword_type,
}
use threaded_db_api_server.Lexer.Scan.{
  Scanned, put, is_word, scan_word, scan_number, scan_string, starts_digit,
}
use threaded_db_api_server.Lexer.Print.{quoted, IsDigits, IsUnsigned, IsWord}

scan_word-append :
    (word rest : Bytes)
    → All (λ c. is_word c ≡ true) word
    → scan_word (word ++ b' ' ∷ rest) ≡ (word, b' ' ∷ rest)
unfolding scan_word
scan_word-append [] rest h = refl
scan_word-append (c ∷ word) rest h = rw (h.0, scan_word-append word rest h.1)

scan_number-append :
    (seen : Bool) (digits more : Bytes) (s : Scanned)
    → All (λ c. is_digit c ≡ true) digits
    → scan_number seen more ≡ ok s
    → scan_number seen (digits ++ more) ≡ ok (digits ++ s.0, s.1)
unfolding scan_number
scan_number-append seen [] more s h e = e
scan_number-append seen (c ∷ digits) more s h e =
    rw (h.0, scan_number-append seen digits more s h.1 e)

scan_number-space :
    (seen : Bool) (rest : Bytes) → scan_number seen (b' ' ∷ rest) ≡ ok ([], b' ' ∷ rest)
unfolding scan_number
scan_number-space seen rest = ground arith

scan_digits :
    (seen : Bool) (digits rest : Bytes)
    → All (λ c. is_digit c ≡ true) digits
    → scan_number seen (digits ++ b' ' ∷ rest) ≡ ok (digits, b' ' ∷ rest)
scan_digits seen digits rest h = rw (
  scan_number-append seen digits (b' ' ∷ rest) _ h (scan_number-space seen rest),
  append-nil digits,
)

scan_fraction :
    (fraction rest : Bytes)
    → IsDigits fraction
    → scan_number false (b'.' ∷ fraction ++ b' ' ∷ rest) ≡ ok (b'.' ∷ fraction, b' ' ∷ rest)
unfolding scan_number
scan_fraction [] rest h = absurd h.0
scan_fraction (d ∷ ds) rest h = rw (h.1.0, scan_digits true ds rest h.1.1)

scan_unsigned :
    (cs rest : Bytes) → IsUnsigned cs → scan_number false (cs ++ b' ' ∷ rest) ≡ ok (cs, b' ' ∷ rest)
scan_unsigned cs rest (inl h) = scan_digits false cs rest h.1
scan_unsigned cs rest (inr (whole, fraction, e, hw, hf)) =
    rw (e, append_assoc whole (b'.' ∷ fraction) (b' ' ∷ rest))
      (scan_number-append false whole (b'.' ∷ fraction ++ b' ' ∷ rest) _ hw.1
        (scan_fraction fraction rest hf))

scan_string-cons :
    (c : ℕ) (cs : Bytes)
    → (c == b'\'') ≡ false
    → scan_string (c ∷ cs) ≡ (scan_string cs >>= λ s. ok (put c s))
unfolding scan_string
scan_string-cons c [] h = rw h
scan_string-cons c (d ∷ cs) h = rw h

scan_string-quoted :
    (text rest : Bytes) → scan_string (quoted text (b' ' ∷ rest)) ≡ ok (text, b' ' ∷ rest)
unfolding scan_string quoted
scan_string-quoted [] rest = refl
scan_string-quoted (c ∷ text) rest = go (scan_string-quoted text rest) (Bool-cases (c == b'\''))
  where
    go :
        scan_string (quoted text (b' ' ∷ rest)) ≡ ok (text, b' ' ∷ rest)
        → ((c == b'\'') ≡ true) ⊎ ((c == b'\'') ≡ false)
        → scan_string (quoted (c ∷ text) (b' ' ∷ rest)) ≡ ok (c ∷ text, b' ' ∷ rest)
    go ih (inl e) = rw (e, ih) (rw ((==_iff c b'\'').0 e))
    go ih (inr e) = rw e (scan_string-cons c (quoted text (b' ' ∷ rest)) e ∙ rw ih)

pub word-Reads :
    (type : TokenType) (c : ℕ) (cs rest : Bytes)
    → IsWord (c ∷ cs)
    → keyword_type (c ∷ cs) ≡ type
    → next_token c (cs ++ b' ' ∷ rest) ≡ ok (token type (c ∷ cs), b' ' ∷ rest)
unfolding next_token tokenize_identifier
word-Reads type c cs rest h e =
    rw (h.0, scan_word-append (c ∷ cs) rest (ground (arith, h.0), h.1), e)

pub starts_digit-IsUnsigned : (cs : Bytes) → IsUnsigned cs → starts_digit cs ≡ true
starts_digit-IsUnsigned [] (inl h) = absurd h.0
starts_digit-IsUnsigned (c ∷ cs) (inl h) = h.1.0
starts_digit-IsUnsigned cs (inr ([], fraction, e, hw, hf)) = absurd hw.0
starts_digit-IsUnsigned cs (inr (d ∷ whole, fraction, e, hw, hf)) = rw e (hw.1.0)

pub unsigned-Reads :
    (c : ℕ) (cs rest : Bytes)
    → IsUnsigned (c ∷ cs)
    → next_token c (cs ++ b' ' ∷ rest) ≡ ok (token token_number (c ∷ cs), b' ' ∷ rest)
unfolding next_token tokenize_number
unsigned-Reads c cs rest h =
    let digit = starts_digit-IsUnsigned (c ∷ cs) h in
    let no_word : (is_alpha c || c == b'_') ≡ false = ground (arith, digit) in
    let no_sign : (c == b'-') ≡ false = ground (arith, digit) in
    rw (no_word, digit, no_sign, scan_unsigned (c ∷ cs) rest h)

starts_digit-append : (cs more : Bytes) → starts_digit cs ≡ true → starts_digit (cs ++ more) ≡ true
starts_digit-append [] more h = absurd (cc h)
starts_digit-append (c ∷ cs) more h = h

pub minus-Reads :
    (digits rest : Bytes)
    → IsUnsigned digits
    → next_token b'-' (digits ++ b' ' ∷ rest) ≡ ok (token token_number (b'-' ∷ digits), b' ' ∷ rest)
unfolding next_token tokenize_number
minus-Reads digits rest h = rw (
  starts_digit-append digits (b' ' ∷ rest) (starts_digit-IsUnsigned digits h),
  scan_unsigned digits rest h,
)

pub string-Reads :
    (text rest : Bytes)
    → next_token b'\'' (quoted text (b' ' ∷ rest)) ≡ ok (token token_string text, b' ' ∷ rest)
unfolding next_token tokenize_string
string-Reads text rest = rw (scan_string-quoted text rest)
