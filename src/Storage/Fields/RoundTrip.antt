-- ===== src/Storage/Fields/RoundTrip.antt =====
-- src/storage.c: a row that is written is split back into its fields.
use mathlib.Core.Option
use threaded_db_api_server.Prelude.{
  ℕ, suc, ◌-◌, ◌≡◌, ◌⊎◌, refl, ap, ◌∙◌, true, false, some, List, [], ◌∷◌, ◌++◌, ltb, ◌==◌, length,
  arith, append_assoc, append-nil, Bool-cases, inl, inr, le→ltb,
}
use threaded_db_api_server.Prelude.Bytes.{Bytes}
use threaded_db_api_server.Storage.Fields.{
  Row, escape_byte, escape_field, unescape_byte, unescape_field, Split, split_step, split_from,
  normalize_field_count, parse_line_into_row, write_values,
}

ltb-zero-suc : (i : ℕ) → ltb 0 (suc i) ≡ true
ltb-zero-suc i = ground arith

-- An escaped byte is a pair that unescapes to it, or the byte itself, which is then no special one.
record Pair (c : ℕ) : Type 0 where
  code : ℕ
  is_pair : escape_byte c ≡ b'\\' ∷ code ∷ []
  decodes : unescape_byte code ≡ some c

record Single (c : ℕ) : Type 0 where
  is_single : escape_byte c ≡ c ∷ []
  no_backslash : (c == b'\\') ≡ false
  no_bar : (c == b'|') ≡ false
  no_newline : (c == b'\n') ≡ false

escape_byte_cases : (c : ℕ) → Pair c ⊎ Single c
unfolding escape_byte unescape_byte
escape_byte_cases c = elim (Bool-cases (c == b'\\')) [
  | inl p ↦ inl (record { code = b'\\'; is_pair = rw p; decodes = ground arith })
  | inr p ↦ elim (Bool-cases (c == b'|')) [
    | inl q ↦ inl (record { code = b'|'; is_pair = rw (p, q); decodes = ground arith })
    | inr q ↦ elim (Bool-cases (c == b'\n')) [
      | inl r ↦ inl (record { code = b'n'; is_pair = rw (p, q, r); decodes = ground arith })
      | inr r ↦
          inr (record { is_single = rw (p, q, r); no_backslash = p; no_bar = q; no_newline = r })
    ]
  ]
]

unescape_single :
    (c : ℕ) (cs : Bytes)
    → (c == b'\\') ≡ false
    → unescape_field (c ∷ cs) ≡ Option.map (λ r. c ∷ r) (unescape_field cs)
unfolding unescape_field
unescape_single c [] p = rw p
unescape_single c (d ∷ cs) p = rw p

unescape-escape_byte :
    (c : ℕ) (cs : Bytes)
    → unescape_field (escape_byte c ++ cs) ≡ Option.map (λ r. c ∷ r) (unescape_field cs)
unescape-escape_byte c cs = elim (escape_byte_cases c) [
  | inl p ↦ rw p.is_pair (unfold unescape_field in rw p.decodes)
  | inr q ↦ rw q.is_single (unescape_single c cs q.no_backslash)
]

-- Every text that was escaped is unescaped to itself.
pub unescape_field-escape_field : (v : Bytes) → unescape_field (escape_field v) ≡ some v
unfolding escape_field unescape_field
unescape_field-escape_field [] = refl
unescape_field-escape_field (c ∷ cs) =
    unescape-escape_byte c (escape_field cs)
    ∙ ap (Option.map (λ r. c ∷ r)) (unescape_field-escape_field cs)

split-escape_byte :
    (s : Split) (c : ℕ) (rest : Bytes)
    → s.escape_pending ≡ false
    → split_from s (escape_byte c ++ rest)
      ≡ split_from (record s { current_raw = s.current_raw ++ escape_byte c }) rest
unfolding split_from split_step
split-escape_byte s c rest p = elim (escape_byte_cases c) [
  | inl q ↦
      rw (q.is_pair, p)
        (ap (λ r. split_from (record s { current_raw = r; escape_pending = false }) rest)
          (append_assoc s.current_raw (b'\\' ∷ []) (q.code ∷ [])))
  | inr q ↦ rw (q.is_single, p, q.no_backslash, q.no_bar)
]

split-escape_field :
    (v : Bytes) (s : Split) (rest : Bytes)
    → s.escape_pending ≡ false
    → split_from s (escape_field v ++ rest)
      ≡ split_from (record s { current_raw = s.current_raw ++ escape_field v }) rest
unfolding escape_field
split-escape_field [] s rest p = rw append-nil
split-escape_field (c ∷ cs) s rest p = rw (append_assoc (escape_byte c) (escape_field cs) rest) (
    split-escape_byte s c (escape_field cs ++ rest) p
    ∙ split-escape_field cs (record s { current_raw = s.current_raw ++ escape_byte c }) rest p
    ∙ rw append_assoc)

split-write_values :
    (i : ℕ) (v : Bytes) (vs fs : List Bytes)
    → split_from
        (record { fields = fs; current_raw = []; escape_pending = false })
        (escape_field v ++ write_values (suc i) vs)
      ≡ some (fs ++ (v ∷ vs))
unfolding split_from split_step write_values
split-write_values i v [] fs =
    split-escape_field v (record { fields = fs; current_raw = []; escape_pending = false }) [] refl
    ∙ rw (unescape_field-escape_field v)
split-write_values i v (w ∷ ws) fs =
    split-escape_field v (record { fields = fs; current_raw = []; escape_pending = false }) _ refl
    ∙ rw (ltb-zero-suc i, unescape_field-escape_field v)
        (split-write_values (suc i) w ws (fs ++ (v ∷ []))
          ∙ ap some (append_assoc fs (v ∷ []) (w ∷ ws)))

normalize_field_count_same :
    (fields : List Bytes) (n : ℕ) → length fields ≡ n → normalize_field_count fields n ≡ fields
unfolding normalize_field_count
normalize_field_count_same fields n e =
    let none_missing : n - length fields ≡ 0 = omega arith in
    rw (le→ltb n (length fields) (omega arith), none_missing, append-nil)

-- A row of one value or more that was written as one line is parsed back, with the number of its
-- values expected, to the same values, whatever bytes they hold.
pub parse-write_values :
    (v : Bytes) (vs : Row) (n : ℕ)
    → length (v ∷ vs) ≡ n
    → parse_line_into_row (write_values 0 (v ∷ vs)) n ≡ some (v ∷ vs)
unfolding parse_line_into_row write_values
parse-write_values v vs n e =
    rw (split-write_values 0 v vs []) (ap some (normalize_field_count_same (v ∷ vs) n e))
