-- ===== src/Json/RoundTrip.antt =====
-- src/json_parser.c on what src/json_writer.c writes.
use threaded_db_api_server.Prelude.{
  ℕ, suc, ◌≡◌, refl, sym, ap, subst, ◌∙◌, ◌⊎◌, inl, inr, Bool, true, false, not, Bool-cases, ◌&&◌,
  ◌||◌, none, [], ◌∷◌, ◌++◌, length, ltb, ◌==◌, if◌then◌else◌, arith,
}
use threaded_db_api_server.Prelude.Bytes.{Bytes, codes, str_eq}
use threaded_db_api_server.Json.Field.{
  json_extract_string_field, read_entries, read_entry, skip_whitespace,
}
use threaded_db_api_server.Json.{
  json_append_escaped_string, escape_byte, escape_bytes, field_ok, failed, invalid_json, Read,
  put_byte, string_body, parse_json_string,
}

-- The bytes that the reader takes back: all but the control characters that the writer gives as \u.
abbrev pub is_readable : ℕ → Bool
is_readable c = not (ltb c 32) || c == b'\n' || c == b'\r' || c == b'\t'

unfoldable pub all_readable : Bytes → Bool
all_readable [] = true
all_readable (c ∷ cs) = is_readable c && all_readable cs

string_body-cons :
    (c : ℕ) (cs : Bytes)
    → (c == b'"') ≡ false
    → ltb c 32 ≡ false
    → (c == b'\\') ≡ false
    → string_body (c ∷ cs) ≡ put_byte c (string_body cs)
unfolding string_body
string_body-cons c [] q s b = rw q
string_body-cons c (d ∷ cs) q s b = rw (q, s, b)

-- One byte written and read.
abbrev IsBack : ℕ → Bytes → Type 0
IsBack c rest =
    string_body (escape_byte c rest)
    ≡ (if is_readable c then put_byte c (string_body rest) else failed invalid_json)

equal_or : (c k : ℕ) → (c ≡ k) ⊎ ((c == k) ≡ false)
equal_or c k = ground arith

string_body-escape : (c : ℕ) (rest : Bytes) → IsBack c rest
unfolding string_body
string_body-escape c rest =
    go (equal_or c b'"') (equal_or c b'\\') (equal_or c b'\n') (equal_or c b'\r') (equal_or c b'\t')
      (Bool-cases (ltb c 32))
  where
    back : {k : ℕ} → c ≡ k → IsBack k rest → IsBack c rest
    back e h = subst (λ d. IsBack d rest) (sym e) h

    go :
        (c ≡ b'"') ⊎ ((c == b'"') ≡ false)
        → (c ≡ b'\\') ⊎ ((c == b'\\') ≡ false)
        → (c ≡ b'\n') ⊎ ((c == b'\n') ≡ false)
        → (c ≡ b'\r') ⊎ ((c == b'\r') ≡ false)
        → (c ≡ b'\t') ⊎ ((c == b'\t') ≡ false)
        → (ltb c 32 ≡ true) ⊎ (ltb c 32 ≡ false)
        → IsBack c rest
    go (inl e) _ _ _ _ _ = back e refl
    go (inr q) (inl e) _ _ _ _ = back e refl
    go (inr q) (inr b) (inl e) _ _ _ = back e refl
    go (inr q) (inr b) (inr n) (inl e) _ _ = back e refl
    go (inr q) (inr b) (inr n) (inr r) (inl e) _ = back e refl
    go (inr q) (inr b) (inr n) (inr r) (inr t) (inl s) = rw (q, b, n, r, t, s)
    go (inr q) (inr b) (inr n) (inr r) (inr t) (inr s) =
        rw (q, b, n, r, t, s) (string_body-cons c rest q s b)

if-put :
    (b : Bool) (c : ℕ) (text rest : Bytes)
    → put_byte c (if b then field_ok (text, rest) else failed invalid_json)
      ≡ (if b then field_ok (c ∷ text, rest) else failed invalid_json)
if-put true c text rest = refl
if-put false c text rest = refl

put_lem :
    (a b : Bool) (c : ℕ) (text rest : Bytes) (r : Read)
    → r ≡ (if b then field_ok (text, rest) else failed invalid_json)
    → (if a then put_byte c r else failed invalid_json)
      ≡ (if a && b then field_ok (c ∷ text, rest) else failed invalid_json)
put_lem true b c text rest r e = ap (put_byte c) e ∙ if-put b c text rest
put_lem false b c text rest r e = refl

pub string_body-escape_bytes :
    (text rest : Bytes)
    → string_body (escape_bytes text (b'"' ∷ rest))
      ≡ (if all_readable text then field_ok (text, rest) else failed invalid_json)
unfolding escape_bytes all_readable string_body
string_body-escape_bytes [] [] = refl
string_body-escape_bytes [] (c ∷ rest) = refl
string_body-escape_bytes (c ∷ text) rest =
    string_body-escape c (escape_bytes text (b'"' ∷ rest))
    ∙ put_lem (is_readable c) (all_readable text) c text rest _ (string_body-escape_bytes text rest)

if-append :
    (q : Bytes) (b : Bool) (x y y' : Bytes)
    → y ++ q ≡ y'
    → (if◌then◌else◌ {A = Bytes} b x y) ++ q ≡ (if◌then◌else◌ {A = Bytes} b (x ++ q) y')
if-append q true x y y' h = refl
if-append q false x y y' h = h

escape_byte-append : (c : ℕ) (rest q : Bytes) → escape_byte c rest ++ q ≡ escape_byte c (rest ++ q)
escape_byte-append c rest q = if-append q (c == b'"') _ _ _ (
    if-append q (c == b'\\') _ _ _ (
      if-append q (c == b'\n') _ _ _ (
        if-append q (c == b'\r') _ _ _
          (if-append q (c == b'\t') _ _ _ (if-append q (ltb c 32) _ _ _ refl)))))

pub escape_bytes-append :
    (text rest q : Bytes) → escape_bytes text rest ++ q ≡ escape_bytes text (rest ++ q)
unfolding escape_bytes
escape_bytes-append [] rest q = refl
escape_bytes-append (c ∷ text) rest q =
    escape_byte-append c (escape_bytes text rest) q
    ∙ ap (escape_byte c) (escape_bytes-append text rest q)

-- {"sql":"..."}
unfoldable pub request_body : Bytes → Bytes
request_body sql = json_append_escaped_string (codes "{\"sql\":") sql ++ codes "}"

-- Behind the brace.
abbrev pub entries_of : Bytes → Bytes
entries_of sql = codes "\"sql\":\"" ++ escape_bytes sql (codes "\"}")

pub request_body_lem : (sql : Bytes) → request_body sql ≡ b'{' ∷ entries_of sql
unfolding request_body json_append_escaped_string
request_body_lem sql =
    ap (λ r. codes "{\"sql\":\"" ++ r) (escape_bytes-append sql (b'"' ∷ []) (codes "}"))

read_entries-entries_of :
    (fuel : ℕ) (sql : Bytes)
    → read_entries (suc fuel) (codes "sql") none (entries_of sql)
      ≡ (if all_readable sql then field_ok sql else failed invalid_json)
unfolding read_entries read_entry skip_whitespace parse_json_string string_body str_eq
read_entries-entries_of fuel sql = go (Bool-cases (all_readable sql))
  where
    go :
        (all_readable sql ≡ true) ⊎ (all_readable sql ≡ false)
        → read_entries (suc fuel) (codes "sql") none (entries_of sql)
          ≡ (if all_readable sql then field_ok sql else failed invalid_json)
    go (inl e) = rw (string_body-escape_bytes sql (codes "}"), e)
    go (inr e) = rw (string_body-escape_bytes sql (codes "}"), e)

pub json_extract-request_body :
    (sql : Bytes)
    → json_extract_string_field (request_body sql) (codes "sql")
      ≡ (if all_readable sql then field_ok sql else failed invalid_json)
unfolding json_extract_string_field skip_whitespace
json_extract-request_body sql =
    ap (λ b. json_extract_string_field b (codes "sql")) (request_body_lem sql)
    ∙ read_entries-entries_of (length (b'{' ∷ entries_of sql)) sql
