-- ===== src/Lexer/Ends.antt =====
-- src/lexer.c: the fuel of its loop, and the end of its token array.
use threaded_db_api_server.Prelude.{
  ℕ, zero, suc, ◌≤◌, ◌<◌, ◌≡◌, refl, Bool, true, false, List, [], ◌∷◌, ◌&&◌, ◌||◌, ◌==◌, arith,
  length, if◌then◌else◌, inl, inr, not, subst, ◌⊎◌, Bool-cases,
}
use threaded_db_api_server.Prelude.Bytes.{Bytes, is_space, is_digit, is_alpha}
use threaded_db_api_server.Errors.{Status, lex_error, Result, ok, err, ◌>>=◌}
use threaded_db_api_server.Lexer.{
  TokenType, Token, token_number, token_string, token, token_eof, Lexed, tokenize_identifier,
  tokenize_number, tokenize_string, tokenize_symbol, next_token, tokenize_loop, tokenize_sql, ◌is◌,
  keyword_type,
}
use threaded_db_api_server.Lexer.Scan.{
  Scanned, put, is_word, scan_word, scan_number, scan_string, starts_digit,
}

-- A success leaves at most n bytes, and a failure is the lexer's.
abbrev pub Leaves {ℓ} : {A : Type ℓ} → ℕ → Result (A × Bytes) → Type 0
Leaves n (ok lexed) = length lexed.1 ≤ n
Leaves n (err e) = e ≡ lex_error

module _ {ℓ} {A : Type ℓ} where
  Leaves-le : {m n : ℕ} (r : Result (A × Bytes)) → m ≤ n → Leaves m r → Leaves n r
  Leaves-le (ok lexed) h l = omega arith
  Leaves-le (err e) h l = l

  Leaves-if :
      (n : ℕ) (b : Bool) (r s : Result (A × Bytes))
      → (b ≡ true → Leaves n r)
      → (b ≡ false → Leaves n s)
      → Leaves n (if b then r else s)
  Leaves-if n true r s hr hs = hr refl
  Leaves-if n false r s hr hs = hs refl

  Leaves-bind {κ} :
      {B : Type κ} (n : ℕ) (f : A × Bytes → B) (r : Result (A × Bytes))
      → Leaves n r
      → Leaves n (r >>= λ s. ok (f s, s.1))
  Leaves-bind n f (ok s) l = l
  Leaves-bind n f (err e) l = l

-- One byte more in front of what was read.
Leaves-put : (n : ℕ) (c : ℕ) (r : Result Scanned) → Leaves n r → Leaves n (r >>= λ s. ok (put c s))
Leaves-put n c = Leaves-bind n (λ s. c ∷ s.0)

scan_word-le : (cs : Bytes) → length ((scan_word cs).1) ≤ length cs
unfolding scan_word
scan_word-le [] = omega arith
scan_word-le (c ∷ cs) = go (scan_word-le cs) (Bool-cases (is_word c))
  where
    go :
        length ((scan_word cs).1) ≤ length cs
        → (is_word c ≡ true) ⊎ (is_word c ≡ false)
        → length ((scan_word (c ∷ cs)).1) ≤ suc (length cs)
    go le (inl w) = rw w (omega arith)
    go le (inr w) = rw w (omega arith)

mutual
  unfolding scan_number

  scan_number-Leaves : (seen : Bool) (cs : Bytes) → Leaves (length cs) (scan_number seen cs)
  scan_number-Leaves seen [] = omega arith
  scan_number-Leaves seen (c ∷ cs) =
      Leaves-if _ (is_digit c) _ _
        (λ _. Leaves-put _ c _ (Leaves-le _ (omega arith) (scan_number-Leaves seen cs)))
        λ _.
          Leaves-if _ (not seen && c == b'.') _ _
            (λ _.
              Leaves-if _ (starts_digit cs) _ _
                (λ _. Leaves-put _ c _ (Leaves-le _ (omega arith) (scan_number-Leaves true cs)))
                (λ _. refl))
            (λ _. omega arith)

scan_string-Leaves : (cs : Bytes) → Leaves (length cs) (scan_string cs)
unfolding scan_string
scan_string-Leaves [] = refl
scan_string-Leaves (c ∷ []) = Leaves-if 1 (c == b'\'') _ _ (λ _. omega arith) λ _. refl
scan_string-Leaves (c ∷ d ∷ cs) =
    Leaves-if _ (c == b'\'') _ _
      (λ _.
        Leaves-if _ (d == b'\'') _ _
          (λ _. Leaves-put _ c _ (Leaves-le _ (omega arith) (scan_string-Leaves cs)))
          (λ _. omega arith))
      (λ _. Leaves-put _ c _ (Leaves-le _ (omega arith) (scan_string-Leaves (d ∷ cs))))

identifier-Leaves :
    (c : ℕ) (cs : Bytes) → is_word c ≡ true → Leaves (length cs) (tokenize_identifier (c ∷ cs))
unfolding tokenize_identifier scan_word
identifier-Leaves c cs h = rw h (scan_word-le cs)

number-Leaves :
    (c : ℕ) (cs : Bytes)
    → (is_digit c || c == b'-') ≡ true
    → Leaves (length cs) (tokenize_number (c ∷ cs))
unfolding tokenize_number scan_number
number-Leaves c cs h =
    Leaves-bind _ (λ s. token token_number s.0) _
      (Leaves-if _ (c == b'-') _ _ (λ _. Leaves-put _ c _ (scan_number-Leaves false cs))
        (λ no.
          Leaves-if _ (is_digit c) _ _ (λ _. Leaves-put _ c _ (scan_number-Leaves false cs))
            (λ other. absurd (ground (arith, h, no, other)))))

symbol-Leaves : (c : ℕ) (cs : Bytes) → Leaves (length cs) (tokenize_symbol c cs)
unfolding tokenize_symbol
symbol-Leaves c cs = ground arith

pub next_token-Leaves : (c : ℕ) (cs : Bytes) → Leaves (length cs) (next_token c cs)
unfolding next_token tokenize_string
next_token-Leaves c cs =
    Leaves-if _ (is_alpha c || c == b'_') _ _ (λ h. identifier-Leaves c cs (ground (arith, h)))
      λ _.
        Leaves-if _ (is_digit c || (c == b'-' && starts_digit cs)) _ _
          (λ h. number-Leaves c cs (ground (arith, h)))
          λ _.
            Leaves-if _ (c == b'\'') _ _
              (λ _. Leaves-bind _ (λ s. token token_string s.0) _ (scan_string-Leaves cs))
              (λ _. symbol-Leaves c cs)

-- A token array: TOKEN_EOF ends it and stands nowhere else in it.
abbrev pub EndsEof : List Token → Type 0
EndsEof [] = ⊥
EndsEof (t ∷ ts) =
    ((t.token_type ≡ token_eof) × (ts ≡ [])) ⊎ (((t.token_type is token_eof) ≡ false) × EndsEof ts)

abbrev NoEof : Lexed → Type 0
NoEof (ok lexed) = (lexed.0.token_type is token_eof) ≡ false
NoEof (err e) = Unit

NoEof-scanned :
    (type : TokenType) (r : Result Scanned)
    → (type is token_eof) ≡ false
    → NoEof (r >>= λ s. ok (token type s.0, s.1))
NoEof-scanned type (ok s) h = h
NoEof-scanned type (err e) h = tt

NoEof-if : (b : Bool) (r s : Lexed) → NoEof r → NoEof s → NoEof (if b then r else s)
NoEof-if true r s hr hs = hr
NoEof-if false r s hr hs = hs

keyword_type-no_eof : (text : Bytes) → (keyword_type text is token_eof) ≡ false
unfolding keyword_type
keyword_type-no_eof text = ground arith

symbol-NoEof : (c : ℕ) (cs : Bytes) → NoEof (tokenize_symbol c cs)
unfolding tokenize_symbol
symbol-NoEof c cs = ground arith

next_token-NoEof : (c : ℕ) (cs : Bytes) → NoEof (next_token c cs)
unfolding next_token tokenize_identifier tokenize_number tokenize_string
next_token-NoEof c cs = NoEof-if (is_alpha c || c == b'_') _ _ (keyword_type-no_eof _) (
    NoEof-if (is_digit c || (c == b'-' && starts_digit cs)) _ _ (NoEof-scanned token_number _ refl)
      (NoEof-if (c == b'\'') _ _ (NoEof-scanned token_string _ refl) (symbol-NoEof c cs)))

abbrev Delivers : Result (List Token) → Type 0
Delivers (ok ts) = EndsEof ts
Delivers (err e) = e ≡ lex_error

Delivers-cons :
    (t : Token) (r : Result (List Token))
    → (t.token_type is token_eof) ≡ false
    → Delivers r
    → Delivers (r >>= λ ts. ok (t ∷ ts))
Delivers-cons t (ok ts) h d = inr (h, d)
Delivers-cons t (err e) h d = d

tokenize_loop-Delivers :
    (fuel : ℕ) (cs : Bytes) → length cs < fuel → Delivers (tokenize_loop fuel cs)
unfolding tokenize_loop
tokenize_loop-Delivers zero cs h = absurd (omega arith)
tokenize_loop-Delivers (suc fuel) [] h = inl (refl, refl)
tokenize_loop-Delivers (suc fuel) (c ∷ cs) h =
    go (tokenize_loop-Delivers fuel) (is_space c) (next_token c cs) (next_token-Leaves c cs)
      (next_token-NoEof c cs)
  where
    go :
        ((rest : Bytes) → length rest < fuel → Delivers (tokenize_loop fuel rest))
        → (space : Bool) (lexed : Lexed) → Leaves (length cs) lexed
        → NoEof lexed
        → Delivers (elim space [
          | true ↦ tokenize_loop fuel cs
          | false ↦ lexed >>= λ l. tokenize_loop fuel l.1 >>= λ tokens. ok (l.0 ∷ tokens)
        ])
    go ih true lexed l n = ih cs (omega arith)
    go ih false (ok lexed) l n = Delivers-cons lexed.0 _ n (ih lexed.1 (omega arith))
    go ih false (err e) l n = l

-- The lexer ends on every text: if it fails, it is with STATUS_LEX_ERROR, never for want of fuel.
pub tokenize_sql-err : (sql : Bytes) (e : Status) → tokenize_sql sql ≡ err e → e ≡ lex_error
unfolding tokenize_sql
tokenize_sql-err sql e h =
    subst Delivers h (tokenize_loop-Delivers (suc (length sql)) sql (omega arith))

pub tokenize_sql-EndsEof : (sql : Bytes) (ts : List Token) → tokenize_sql sql ≡ ok ts → EndsEof ts
unfolding tokenize_sql
tokenize_sql-EndsEof sql ts h =
    subst Delivers h (tokenize_loop-Delivers (suc (length sql)) sql (omega arith))
