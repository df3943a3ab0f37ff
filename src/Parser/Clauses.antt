-- ===== src/Parser/Clauses.antt =====
-- The clauses and the two statements of src/parser.c, and the tokens that they pass.
use threaded_db_api_server.Prelude.{refl, inl, inr, List, [], ◌∷◌}
use threaded_db_api_server.Prelude.Bytes.{Bytes}
use threaded_db_api_server.Errors.{ok}
use threaded_db_api_server.Errors.Outcome.{Ensures, delivers, Ensures-bind}
use threaded_db_api_server.Lexer.{
  token_lparen, token_rparen, token_star, token_insert, token_into, token_values, token_select,
  token_from, token_where, token_equal,
}
use threaded_db_api_server.Executor.{Statement}
use threaded_db_api_server.Parser.{
  Tokens, parser_advance, on_match, identifier, literal, parse_identifier, parse_where_clause,
  parse_columns, parse_insert, parse_projection, parse_select,
}
use threaded_db_api_server.Parser.Print.{
  fixed, identifier_token, literal_token, name_tokens, column_tokens, projection_tokens,
  where_tokens, statement_tokens, HasItem, IsProjection, IsWhere, IsParsed,
}
use threaded_db_api_server.Parser.Passes.{
  Passes, Passes-trans, Passes-none, on_match_lem, expect_lem, identifier_lem, literal_lem,
  item_lem, list_lem,
}

name_lem :
    (ts : Tokens)
    → Ensures
        (λ (name, rest). Passes (λ r. identifier_token name ∷ r) ts rest)
        (parse_identifier ts)
name_lem = item_lem identifier identifier_token identifier_lem

columns_lem :
    (ts : Tokens)
    → Ensures
        (λ (names, rest). Passes (column_tokens names) ts rest)
        (on_match token_lparen parse_columns (λ r. ok ([], r)) ts)
unfolding parse_columns
columns_lem ts =
    on_match_lem token_lparen ts ((λ _. refl), refl)
      (λ p.
        Ensures-bind (list_lem identifier identifier_token identifier_lem (parser_advance ts))
          λ (names, vs) (has, q).
            Ensures-bind (expect_lem token_rparen vs ((λ _. refl), refl))
              λ (_, ws) k. delivers (go names has (Passes-trans p (Passes-trans q k))))
      (delivers Passes-none)
  where
    go :
        (names : List Bytes) {ws : Tokens}
        → HasItem names
        → Passes (λ r. fixed token_lparen ∷ name_tokens names (fixed token_rparen ∷ r)) ts ws
        → Passes (column_tokens names) ts ws
    go [] h p = absurd h
    go (name ∷ names) h p = p

projection_lem :
    (ts : Tokens)
    → Ensures
        (λ ((all, names), rest).
          IsProjection all names × Passes (projection_tokens all names) ts rest)
        (parse_projection ts)
unfolding parse_projection
projection_lem ts =
    on_match_lem token_star ts ((λ _. refl), refl) (λ p. delivers (refl, p))
      (Ensures-bind (list_lem identifier identifier_token identifier_lem ts)
        λ (names, vs) h. delivers h)

where_lem :
    (ts : Tokens)
    → Ensures
        (λ (clause, rest). IsWhere clause × Passes (where_tokens clause) ts rest)
        (parse_where_clause ts)
unfolding parse_where_clause
where_lem ts =
    on_match_lem token_where ts ((λ _. refl), refl)
      (λ p. Ensures-bind (name_lem (parser_advance ts)) λ (name, vs) q.
        Ensures-bind (expect_lem token_equal vs ((λ _. refl), refl)) λ (_, ws) k.
          Ensures-bind (item_lem literal literal_token literal_lem ws)
            λ (v, xs) l. delivers (inl refl, Passes-trans p (Passes-trans q (Passes-trans k l))))
      (delivers (inr refl, Passes-none))

-- Of what was read from `ts` on: a statement as a parse returns it, and its tokens.
abbrev pub IsRead : Tokens → Statement × Tokens → Type 0
IsRead ts read = IsParsed read.0 × Passes (statement_tokens read.0) ts read.1

pub insert_lem :
    {us : Tokens} (ts : Tokens)
    → Passes (λ r. fixed token_insert ∷ r) us ts
    → Ensures (IsRead us) (parse_insert ts)
unfolding parse_insert
insert_lem ts p = Ensures-bind (expect_lem token_into ts ((λ _. refl), refl)) λ (_, t1) p1.
    Ensures-bind (name_lem t1) λ (name, t2) p2. Ensures-bind (columns_lem t2) λ (names, t3) p3.
      Ensures-bind (expect_lem token_values t3 ((λ _. refl), refl)) λ (_, t4) p4.
        Ensures-bind (expect_lem token_lparen t4 ((λ _. refl), refl)) λ (_, t5) p5.
          Ensures-bind (list_lem literal literal_token literal_lem t5) λ (vs, t6) (has, p6).
            Ensures-bind (expect_lem token_rparen t6 ((λ _. refl), refl)) λ (_, t7) p7. delivers (
              has,
              Passes-trans p (
                  Passes-trans p1 (
                    Passes-trans p2
                      (Passes-trans p3 (Passes-trans p4 (Passes-trans p5 (Passes-trans p6 p7)))))),
            )

pub select_lem :
    {us : Tokens} (ts : Tokens)
    → Passes (λ r. fixed token_select ∷ r) us ts
    → Ensures (IsRead us) (parse_select ts)
unfolding parse_select
select_lem ts p = Ensures-bind (projection_lem ts) λ ((all, names), t1) (h, p1).
    Ensures-bind (expect_lem token_from t1 ((λ _. refl), refl)) λ (_, t2) p2.
      Ensures-bind (name_lem t2) λ (name, t3) p3.
        Ensures-bind (where_lem t3) λ (clause, t4) (w, p4).
          delivers ((h, w), Passes-trans p (Passes-trans p1 (Passes-trans p2 (Passes-trans p3 p4))))
