-- ===== src/Parser/Passes.antt =====
-- The tokens that a parser of src/parser.c passes.
use threaded_db_api_server.Prelude.{
  ◌≡◌, refl, ap, sym, subst, ◌∙◌, inl, inr, true, false, List, [], ◌∷◌, map, get_or, ==_iff,
  if◌then◌else◌,
}
use threaded_db_api_server.Prelude.Bytes.{Bytes}
use threaded_db_api_server.Errors.{Result}
use threaded_db_api_server.Errors.Outcome.{
  Ensures, delivers, refuses, Ensures-if, Ensures-bind, Ensures-map,
}
use threaded_db_api_server.Lexer.{
  TokenType, Token, token, type_code, ◌is◌, token_eof, token_identifier, token_string, token_number,
  token_comma, token_lparen, token_rparen, token_semicolon, token_star, token_insert, token_into,
  token_values, token_select, token_from, token_where, token_equal,
}
use threaded_db_api_server.Lexer.Ends.{EndsEof}
use threaded_db_api_server.Lexer.Print.{spelling}
use threaded_db_api_server.Parser.{
  Tokens, Item, parser_peek, parser_advance, parser_expect, identifier, literal, parse_item,
  parse_list, list_tail,
}
use threaded_db_api_server.Parser.Print.{
  fixed, identifier_token, literal_token, tail_tokens, list_tokens, HasItem,
}

-- The text that counts: a keyword or a symbol has one spelling.
abbrev pub normal_text : TokenType → Bytes → Bytes
normal_text token_identifier text = text
normal_text token_string text = text
normal_text token_number text = text
normal_text type text = spelling type

abbrev pub normal : Token → Token
normal t = token t.token_type (normal_text t.token_type t.text)

-- From `ts` to `rest` the tokens that `printed` puts in front were passed, TOKEN_EOF not.
pub record Passes (printed : Tokens → Tokens) (ts rest : Tokens) : Type 0 where
  pub passed : map normal ts ≡ printed (map normal rest)
  pub ends : EndsEof ts → EndsEof rest

pub Passes-trans :
    {p q : Tokens → Tokens} {ts us vs : Tokens}
    → Passes p ts us
    → Passes q us vs
    → Passes (λ r. p (q r)) ts vs
Passes-trans {p = p} h k = record {
  passed = h.passed ∙ ap p k.passed;
  ends = λ e. k.ends (h.ends e);
}

pub Passes-none : {ts : Tokens} → Passes (λ r. r) ts ts
Passes-none = record { passed = refl; ends = λ e. e }

abbrev all_types : List TokenType
all_types =
    token_eof ∷ token_identifier ∷ token_string ∷ token_number ∷ token_comma ∷ token_lparen
    ∷ token_rparen ∷ token_semicolon ∷ token_star ∷ token_insert ∷ token_into ∷ token_values
    ∷ token_select ∷ token_from ∷ token_where ∷ token_equal ∷ []

type_at-type_code : (t : TokenType) → get_or all_types (type_code t) token_eof ≡ t
type_at-type_code token_eof = refl
type_at-type_code token_identifier = refl
type_at-type_code token_string = refl
type_at-type_code token_number = refl
type_at-type_code token_comma = refl
type_at-type_code token_lparen = refl
type_at-type_code token_rparen = refl
type_at-type_code token_semicolon = refl
type_at-type_code token_star = refl
type_at-type_code token_insert = refl
type_at-type_code token_into = refl
type_at-type_code token_values = refl
type_at-type_code token_select = refl
type_at-type_code token_from = refl
type_at-type_code token_where = refl
type_at-type_code token_equal = refl

pub is→≡ : (a b : TokenType) → (a is b) ≡ true → a ≡ b
is→≡ a b h =
    sym (type_at-type_code a)
    ∙ ap (λ n. get_or all_types n token_eof) ((==_iff (type_code a) (type_code b)).0 h)
    ∙ type_at-type_code b

-- Past a token that is not TOKEN_EOF.
pub token_lem :
    (t : Token) (ts : Tokens)
    → (t.token_type is token_eof) ≡ false
    → Passes (λ r. normal t ∷ r) (t ∷ ts) ts
token_lem t ts h = record { passed = refl; ends = go }
  where
    go : EndsEof (t ∷ ts) → EndsEof ts
    go (inl e) = absurd (cc (h, ap (λ a. a is token_eof) e.0))
    go (inr e) = e.1

-- A token of a type, whose text does not count or is kept.
typed_lem :
    (type : TokenType) (t : Token)
    → (type is token_eof) ≡ false
    → (t.token_type is type) ≡ true
    → (normal t ≡ token type (normal_text type t.text)) × ((t.token_type is token_eof) ≡ false)
typed_lem type t no_eof e =
    let typed = is→≡ t.token_type type e in
    (ap (λ a. normal (token a t.text)) typed, ap (λ a. a is token_eof) typed ∙ no_eof)

passed_lem :
    {u : Token} (t : Token) (ts : Tokens)
    → normal t ≡ u
    → (t.token_type is token_eof) ≡ false
    → Passes (λ r. u ∷ r) (t ∷ ts) ts
passed_lem t ts e h = subst (λ n. Passes (λ r. n ∷ r) (t ∷ ts) ts) e (token_lem t ts h)

-- A type whose tokens have one spelling.
abbrev pub IsFixed : TokenType → Type 0
IsFixed type =
    ((text : Bytes) → normal_text type text ≡ spelling type) × ((type is token_eof) ≡ false)

pub fixed_lem :
    (type : TokenType) (t : Token) (ts : Tokens)
    → IsFixed type
    → (t.token_type is type) ≡ true
    → Passes (λ r. fixed type ∷ r) (t ∷ ts) ts
fixed_lem type t ts h e =
    let (same, no_eof) = typed_lem type t h.1 e in
    passed_lem t ts (same ∙ ap (token type) (h.0 t.text)) no_eof

match_lem :
    (type : TokenType) (ts : Tokens)
    → IsFixed type
    → (parser_peek ts is type) ≡ true
    → Passes (λ r. fixed type ∷ r) ts (parser_advance ts)
match_lem type [] h e = absurd (cc (h.1, ap (λ a. a is token_eof) (is→≡ token_eof type e)))
match_lem type (t ∷ ts) h e = rw ((typed_lem type t h.1 e).1) (fixed_lem type t ts h e)

pub on_match_lem {ℓ κ} :
    {A : Type ℓ} {P : A → Type κ} {r s : Result A} (type : TokenType) (ts : Tokens)
    → IsFixed type
    → (Passes (λ q. fixed type ∷ q) ts (parser_advance ts) → Ensures P r)
    → Ensures P s
    → Ensures P (if parser_peek ts is type then r else s)
on_match_lem type ts h then_r else_s =
    Ensures-if (parser_peek ts is type) (λ e. then_r (match_lem type ts h e)) (λ _. else_s)

pub expect_lem :
    (type : TokenType) (ts : Tokens)
    → IsFixed type
    → Ensures (λ r. Passes (λ q. fixed type ∷ q) ts r.1) (parser_expect type ts)
unfolding parser_expect
expect_lem type ts h = on_match_lem type ts h (λ p. delivers p) (refuses tt)

-- An item is read off one token, which is not TOKEN_EOF.
abbrev pub IsItem {ℓ} : {A : Type ℓ} → (A → Token) → Token → A → Type 0
IsItem item_token t a = (normal t ≡ item_token a) × ((t.token_type is token_eof) ≡ false)

pub identifier_lem : (t : Token) → Ensures (IsItem identifier_token t) (identifier t)
unfolding identifier
identifier_lem t =
    Ensures-if (t.token_type is token_identifier)
      (λ e. delivers (typed_lem token_identifier t refl e)) (λ _. refuses tt)

pub literal_lem : (t : Token) → Ensures (IsItem literal_token t) (literal t)
unfolding literal
literal_lem t =
    Ensures-if (t.token_type is token_string) (λ e. delivers (typed_lem token_string t refl e))
      λ _.
        Ensures-if (t.token_type is token_number) (λ e. delivers (typed_lem token_number t refl e))
          (λ _. refuses tt)

module _ {ℓ} {A : Type ℓ} (item : Item A) (item_token : A → Token)
    (sound : (t : Token) → Ensures (IsItem item_token t) (item t)) where
  pub item_lem :
      (ts : Tokens)
      → Ensures (λ (a, rest). Passes (λ r. item_token a ∷ r) ts rest) (parse_item item ts)
  unfolding parse_item
  item_lem [] = refuses tt
  item_lem (t ∷ ts) = Ensures-bind (sound t) λ a h. delivers (passed_lem t ts h.0 h.1)

  comma_lem :
      (xs : List A) {ts rest : Tokens}
      → HasItem xs
      → Passes (λ r. fixed token_comma ∷ list_tokens item_token xs r) ts rest
      → Passes (tail_tokens item_token xs) ts rest
  unfolding tail_tokens list_tokens
  comma_lem [] h p = absurd h
  comma_lem (x ∷ xs) h p = p

  mutual
    unfolding parse_list list_tokens tail_tokens

    pub list_lem :
        (ts : Tokens)
        → Ensures
            (λ (xs, rest). HasItem xs × Passes (list_tokens item_token xs) ts rest)
            (parse_list item ts)
    list_lem [] = refuses tt
    list_lem (t ∷ ts) = Ensures-bind (sound t) λ a h.
        Ensures-bind (tail_lem ts)
          λ (xs, rest) k. delivers (tt, Passes-trans (passed_lem t ts h.0 h.1) k)

    tail_lem :
        (ts : Tokens)
        → Ensures (λ (xs, rest). Passes (tail_tokens item_token xs) ts rest) (list_tail item ts)
    tail_lem [] = delivers Passes-none
    tail_lem (t ∷ ts) =
        Ensures-if (t.token_type is token_comma)
          (λ e. Ensures-map (list_lem ts) λ (xs, rest) (has, p).
            comma_lem xs has (Passes-trans (fixed_lem token_comma t ts ((λ _. refl), refl) e) p))
          (λ _. delivers Passes-none)
