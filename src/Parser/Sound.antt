-- ===== src/Parser/Sound.antt =====
-- src/parser.c: the tokens of what it accepts.
use threaded_db_api_server.Prelude.{
  ℕ, ◌+◌, arith, zero, suc, ◌≡◌, refl, ap, sym, subst, ◌∙◌, ◌⊎◌, inl, inr, Bool-cases, true, false,
  [], ◌∷◌, map,
}
use threaded_db_api_server.Errors.{parse_error, ok, err}
use threaded_db_api_server.Errors.Outcome.{
  Ensures, delivers, refuses, Ensures-ok, Ensures-if, Ensures-bind, Ensures-map, Returns,
  Ensures-Returns,
}
use threaded_db_api_server.Lexer.{
  token, ◌is◌, token_eof, token_semicolon, token_insert, token_select,
}
use threaded_db_api_server.Lexer.Ends.{EndsEof}
use threaded_db_api_server.Executor.{Statement}
use threaded_db_api_server.Parser.{
  Tokens, parser_peek, parser_advance, on_match, parser_skip_semicolons, parse_insert, parse_select,
  parse_one, parse_next_statement, at_end, parse_statement,
}
use threaded_db_api_server.Parser.Print.{fixed, statement_tokens, semicolons, IsParsed}
use threaded_db_api_server.Parser.Passes.{
  normal, Passes, Passes-trans, Passes-none, fixed_lem, on_match_lem,
}
use threaded_db_api_server.Parser.Clauses.{IsRead, insert_lem, select_lem}

-- The same, with a semicolon behind it or none.
abbrev pub IsOne : Tokens → Statement × Tokens → Type 0
IsOne ts read =
    IsParsed read.0 × (n : ℕ) × Passes (λ r. statement_tokens read.0 (semicolons n r)) ts read.1

-- The same, with semicolons in front.
abbrev pub IsNext : Tokens → Statement × Tokens → Type 0
IsNext ts read =
    IsParsed read.0
    × (m : ℕ) × (n : ℕ) × Passes (λ r. semicolons m (statement_tokens read.0 (semicolons n r))) ts
        read.1

one_lem : (ts : Tokens) → Ensures (IsOne ts) (parse_one ts)
unfolding parse_one
one_lem ts =
    Ensures-if (parser_peek ts is token_eof) (λ _. refuses tt)
      λ _. Ensures-bind read λ (stmt, rest) (h, p).
        on_match_lem token_semicolon rest ((λ _. refl), refl)
          (λ q. delivers (h, 1, Passes-trans p q)) (delivers (h, 0, p))
  where
    read : Ensures (IsRead ts) (
        on_match token_insert parse_insert
          (on_match token_select parse_select (λ rest. err parse_error))
          ts)
    read =
        on_match_lem token_insert ts ((λ _. refl), refl) (insert_lem (parser_advance ts))
          (on_match_lem token_select ts ((λ _. refl), refl) (select_lem (parser_advance ts))
            (refuses tt))

skip_lem : (ts : Tokens) → (m : ℕ) × Passes (semicolons m) ts (parser_skip_semicolons ts)
unfolding parser_skip_semicolons
skip_lem [] = (0, Passes-none)
skip_lem (t ∷ ts) = go (Bool-cases (t.token_type is token_semicolon)) (skip_lem ts)
  where
    go :
        ((t.token_type is token_semicolon) ≡ true) ⊎ ((t.token_type is token_semicolon) ≡ false)
        → ((m : ℕ) × Passes (semicolons m) ts (parser_skip_semicolons ts))
        → (m : ℕ) × Passes (semicolons m) (t ∷ ts) (parser_skip_semicolons (t ∷ ts))
    go (inl e) (m, p) =
        rw e (suc m, Passes-trans (fixed_lem token_semicolon t ts ((λ _. refl), refl) e) p)
    go (inr e) ih = (0, rw e Passes-none)

next_lem : (ts : Tokens) → Ensures (IsNext ts) (parse_next_statement ts)
unfolding parse_next_statement
next_lem [] = refuses tt
next_lem (t ∷ ts) =
    let (m, p) = skip_lem (t ∷ ts) in
    Ensures-map (one_lem (parser_skip_semicolons (t ∷ ts)))
      λ read (h, n, q). (h, m, n, Passes-trans p q)

pub parse_next_statement-Returns : (ts : Tokens) → Returns (parse_next_statement ts)
parse_next_statement-Returns ts = Ensures-Returns (next_lem ts)

-- A statement, and the tokens it was parsed off.
pub parse_next_statement-IsNext :
    (ts rest : Tokens) (stmt : Statement)
    → parse_next_statement ts ≡ ok (stmt, rest)
    → IsNext ts (stmt, rest)
parse_next_statement-IsNext ts rest stmt e = Ensures-ok (next_lem ts) e

-- If a statement is parsed off a token array that ends in TOKEN_EOF (`EndsEof`), the tokens behind
-- the new cursor end so too: the cursor has not passed TOKEN_EOF.
pub parse_next_statement-EndsEof :
    (ts rest : Tokens) (stmt : Statement)
    → EndsEof ts
    → parse_next_statement ts ≡ ok (stmt, rest)
    → EndsEof rest
parse_next_statement-EndsEof ts rest stmt h e =
    let (_, _, _, p) = parse_next_statement-IsNext ts rest stmt e in p.ends h

at_end_lem :
    (stmt : Statement) (ts : Tokens)
    → EndsEof ts
    → Ensures (λ s. (s ≡ stmt) × (map normal ts ≡ fixed token_eof ∷ [])) (at_end stmt ts)
unfolding at_end
at_end_lem stmt [] h = refuses tt
at_end_lem stmt (t ∷ ts) (inl h) =
    Ensures-if (t.token_type is token_eof)
      (λ _. delivers (refl, rw h.1 (ap (λ a. normal (token a t.text) ∷ []) h.0))) (λ _. refuses tt)
at_end_lem stmt (t ∷ ts) (inr h) =
    Ensures-if (t.token_type is token_eof) (λ e. absurd (cc (e, h.0))) (λ _. refuses tt)

semicolons-add : (n k : ℕ) (ts : Tokens) → semicolons n (semicolons k ts) ≡ semicolons (n + k) ts
semicolons-add zero k ts = ap (λ j. semicolons j ts) {x = k} {y = 0 + k} (omega arith)
semicolons-add (suc n) k ts =
    ap (λ r. fixed token_semicolon ∷ r) (semicolons-add n k ts)
    ∙ ap (λ j. semicolons j ts) {x = suc (n + k)} {y = suc n + k} (omega arith)

-- The tokens of one statement between semicolons, up to the spelling of keywords and symbols.
abbrev pub IsScript : Tokens → Statement → Type 0
IsScript ts stmt =
    (m : ℕ) × (n : ℕ) × (map normal ts
      ≡ semicolons m (statement_tokens stmt (semicolons n (fixed token_eof ∷ []))))

statement_lem :
    (ts : Tokens)
    → EndsEof ts
    → Ensures (λ stmt. IsParsed stmt × IsScript ts stmt) (parse_statement ts)
unfolding parse_statement
statement_lem ts e = Ensures-bind (next_lem ts) λ (stmt, rest) (h, m, n, p).
    let (k, q) = skip_lem rest in
    Ensures-map (at_end_lem stmt (parser_skip_semicolons rest) (q.ends (p.ends e)))
      λ s (same, last).
        let printed : Tokens → Tokens = λ r. semicolons m (statement_tokens stmt r) in
        let all =
          p.passed
          ∙ ap (λ r. printed (semicolons n r)) (q.passed ∙ ap (semicolons k) last)
          ∙ ap printed (semicolons-add n k (fixed token_eof ∷ [])) in
        subst (λ s. IsParsed s × IsScript ts s) (sym same) (h, (m, n + k, all))

-- What the parser accepts of a token array that ends in TOKEN_EOF (`EndsEof`): some semicolons,
-- the tokens of the one statement that it returns, some semicolons and TOKEN_EOF, up to the
-- spelling of keywords and symbols. The INSERT it returns has a value, the SELECT a column or the
-- star, and no condition where there is no WHERE.
pub parse_statement-IsScript :
    (ts : Tokens) (stmt : Statement)
    → EndsEof ts
    → parse_statement ts ≡ ok stmt
    → IsParsed stmt × IsScript ts stmt
parse_statement-IsScript ts stmt e p = Ensures-ok (statement_lem ts e) p
