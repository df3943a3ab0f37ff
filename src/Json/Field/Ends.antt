-- ===== src/Json/Field/Ends.antt =====
-- src/json_parser.c: the fuel of its loop.
use threaded_db_api_server.Prelude.{
  ℕ, zero, suc, ◌≤◌, ◌<◌, ◌≡◌, ◌≢◌, refl, Bool, true, false, ◌||◌, Option, none, some, [], ◌∷◌, ltb,
  ◌==◌, if◌then◌else◌, length, arith,
}
use threaded_db_api_server.Prelude.Bytes.{Bytes, codes, is_digit, str_eq}
use threaded_db_api_server.Json.{
  JsonFieldStatus, internal_error, Json, field_ok, failed, then_json, unescape, Read, put_byte,
  put_escaped, string_body, parse_json_string,
}
use threaded_db_api_server.Json.Field.{
  skip_whitespace, starts, advance, strip, skip_digits, digits, skip_sign, fraction, exponent,
  consume_number, or_word, consume_json_value, Found, read_value, read_colon, read_entry,
  finish_object, read_entries, json_extract_string_field,
}

-- A success leaves at most n bytes, and a failure is one of the text.
data Leaves {ℓ} {A : Type ℓ} (left : A → Bytes) (n : ℕ) : Json A → Type ℓ where
  leaves : {a : A} → length (left a) ≤ n → Leaves left n (field_ok a)
  fails : {e : JsonFieldStatus} → e ≢ internal_error → Leaves left n (failed e)

module _ {ℓ} {A : Type ℓ} {left : A → Bytes} where
  Leaves-le : {m n : ℕ} {r : Json A} → m ≤ n → Leaves left m r → Leaves left n r
  Leaves-le h (leaves l) = leaves (omega arith)
  Leaves-le h (fails e) = fails e

  Leaves-if :
      {n : ℕ} {r s : Json A} (b : Bool)
      → (b ≡ true → Leaves left n r)
      → Leaves left n s
      → Leaves left n (if b then r else s)
  Leaves-if true hr hs = hr refl
  Leaves-if false hr hs = hs

  Leaves-then {κ} :
      {B : Type κ} {right : B → Bytes} {m n : ℕ} {r : Json A} {k : A → Json B}
      → Leaves left m r
      → ((a : A) → length (left a) ≤ m → Leaves right n (k a))
      → Leaves right n (then_json r k)
  Leaves-then (leaves {a} l) h = h a l
  Leaves-then (fails e) h = fails e

abbrev behind : Bytes × Bytes → Bytes
behind s = s.1

abbrev itself : Bytes → Bytes
itself cs = cs

abbrev behind_found : Found → Bytes
behind_found s = s.1

skip_whitespace-le : (cs : Bytes) → length (skip_whitespace cs) ≤ length cs
unfolding skip_whitespace
skip_whitespace-le [] = omega arith
skip_whitespace-le (c ∷ cs) =
    if_le (c == b' ' || c == b'\t' || c == b'\n' || c == b'\r') (skip_whitespace-le cs)
  where
    if_le :
        (b : Bool)
        → length (skip_whitespace cs) ≤ length cs
        → length (if◌then◌else◌ {A = Bytes} b (skip_whitespace cs) (c ∷ cs)) ≤ suc (length cs)
    if_le true h = omega arith
    if_le false h = omega arith

skip_digits-le : (cs : Bytes) → length (skip_digits cs) ≤ length cs
unfolding skip_digits
skip_digits-le [] = omega arith
skip_digits-le (c ∷ cs) = if_le (is_digit c) (skip_digits-le cs)
  where
    if_le :
        (b : Bool)
        → length (skip_digits cs) ≤ length cs
        → length (if◌then◌else◌ {A = Bytes} b (skip_digits cs) (c ∷ cs)) ≤ suc (length cs)
    if_le true h = omega arith
    if_le false h = omega arith

advance-le : (cs : Bytes) → length (advance cs) ≤ length cs
advance-le [] = omega arith
advance-le (c ∷ cs) = omega arith

advance_if-le :
    (b : Bool) (cs : Bytes) → length (if◌then◌else◌ {A = Bytes} b (advance cs) cs) ≤ length cs
advance_if-le true cs = advance-le cs
advance_if-le false cs = omega arith

put_byte-Leaves : {n : ℕ} {r : Read} (c : ℕ) → Leaves behind n r → Leaves behind n (put_byte c r)
put_byte-Leaves c h = Leaves-then h λ s l. leaves l

put_escaped-Leaves :
    {n : ℕ} {r : Read} (o : Option ℕ) → Leaves behind n r → Leaves behind n (put_escaped o r)
put_escaped-Leaves none h = fails (cc)
put_escaped-Leaves (some c) h = put_byte-Leaves c h

string_body-Leaves : (cs : Bytes) → Leaves behind (length cs) (string_body cs)
unfolding string_body
string_body-Leaves [] = fails (cc)
string_body-Leaves (c ∷ []) = Leaves-if (c == b'"') (λ _. leaves (omega arith)) (fails (cc))
string_body-Leaves (c ∷ d ∷ cs) =
    Leaves-if (c == b'"') (λ _. leaves (omega arith))
      (Leaves-if (ltb c 32) (λ _. fails (cc))
        (Leaves-if (c == b'\\')
          (λ _. put_escaped-Leaves (unescape d) (Leaves-le (omega arith) (string_body-Leaves cs)))
          (put_byte-Leaves c (Leaves-le (omega arith) (string_body-Leaves (d ∷ cs))))))

-- The quote is passed.
parse_json_string-Leaves :
    (cs : Bytes) → Leaves (λ s. b'"' ∷ behind s) (length cs) (parse_json_string cs)
unfolding parse_json_string
parse_json_string-Leaves [] = fails (cc)
parse_json_string-Leaves (c ∷ cs) =
    Leaves-if (c == b'"') (λ _. put_quote (string_body-Leaves cs)) (fails (cc))
  where
    put_quote :
        {r : Read} → Leaves behind (length cs) r → Leaves (λ s. b'"' ∷ behind s) (suc (length cs)) r
    put_quote (leaves l) = leaves (omega arith)
    put_quote (fails e) = fails e

digits-Leaves : (cs : Bytes) → Leaves itself (length cs) (digits cs)
unfolding digits
digits-Leaves [] = fails (cc)
digits-Leaves (c ∷ cs) =
    Leaves-if (is_digit c) (λ _. leaves (omega (arith, skip_digits-le cs))) (fails (cc))

fraction-Leaves : (cs : Bytes) → Leaves itself (length cs) (fraction cs)
unfolding fraction
fraction-Leaves cs =
    Leaves-if (starts b'.' cs) (λ _. Leaves-le (advance-le cs) (digits-Leaves (advance cs)))
      (leaves (omega arith))

exponent-Leaves : (cs : Bytes) → Leaves itself (length cs) (exponent cs)
unfolding exponent skip_sign
exponent-Leaves cs =
    Leaves-if (starts b'e' cs || starts b'E' cs)
      (λ _.
        Leaves-le
          (omega (
            arith,
            advance-le cs,
            advance_if-le (starts b'+' (advance cs) || starts b'-' (advance cs)) (advance cs),
          ))
          (digits-Leaves (skip_sign (advance cs))))
      (leaves (omega arith))

consume_number-Leaves : (cs : Bytes) → Leaves itself (length cs) (consume_number cs)
unfolding consume_number
consume_number-Leaves cs =
    let signed = if◌then◌else◌ {A = Bytes} (starts b'-' cs) (advance cs) cs in
    Leaves-then (digits-Leaves signed) λ r h.
      Leaves-then (fraction-Leaves r)
        λ s k. Leaves-le (omega (arith, advance_if-le (starts b'-' cs) cs)) (exponent-Leaves s)

abbrev Within : ℕ → Option Bytes → Type 0
Within n none = Unit
Within n (some rest) = length rest ≤ n

Within-if :
    (n : ℕ) (b : Bool) (o : Option Bytes) → Within n o → Within (suc n) (if b then o else none)
Within-if n true none w = tt
Within-if n true (some rest) w = omega arith
Within-if n false o w = tt

strip-Within : (word cs : Bytes) → Within (length cs) (strip word cs)
unfolding strip
strip-Within [] cs = omega arith
strip-Within (w ∷ word) [] = tt
strip-Within (w ∷ word) (c ∷ cs) =
    Within-if (length cs) (w == c) (strip word cs) (strip-Within word cs)

or_word-Leaves :
    (word cs : Bytes) {r : Json Bytes}
    → Leaves itself (length cs) r
    → Leaves itself (length cs) (or_word (strip word cs) r)
unfolding or_word
or_word-Leaves word cs {r = r} h = go (strip word cs) (strip-Within word cs)
  where
    go : (o : Option Bytes) → Within (length cs) o → Leaves itself (length cs) (or_word o r)
    go none w = h
    go (some rest) w = leaves w

consume_json_value-Leaves : (cs : Bytes) → Leaves itself (length cs) (consume_json_value cs)
unfolding consume_json_value
consume_json_value-Leaves cs =
    Leaves-if (starts b'"' cs)
      (λ _. Leaves-then (parse_json_string-Leaves cs) λ s l. leaves (omega (arith, l)))
      (Leaves-if (starts b'{' cs || starts b'[' cs) (λ _. fails (cc))
        (or_word-Leaves (codes "true") cs (
          or_word-Leaves (codes "false") cs
            (or_word-Leaves (codes "null") cs (consume_number-Leaves cs)))))

read_value-Leaves :
    (wanted : Bool) (found : Option Bytes) (cs : Bytes)
    → Leaves behind_found (length cs) (read_value wanted found cs)
unfolding read_value
read_value-Leaves wanted found cs =
    Leaves-if wanted
      (λ _.
        Leaves-if (starts b'"' cs)
          (λ _. Leaves-then (parse_json_string-Leaves cs) λ s l. leaves (omega (arith, l)))
          (Leaves-then (consume_json_value-Leaves cs) λ s l. fails (cc)))
      (Leaves-then (consume_json_value-Leaves cs) λ s l. leaves l)

read_colon-Leaves :
    (wanted : Bool) (found : Option Bytes) (cs : Bytes)
    → Leaves behind_found (length cs) (read_colon wanted found cs)
unfolding read_colon
read_colon-Leaves wanted found cs =
    Leaves-if (starts b':' cs)
      (λ _.
        Leaves-le (omega (arith, skip_whitespace-le (advance cs), advance-le cs))
          (read_value-Leaves wanted found (skip_whitespace (advance cs))))
      (fails (cc))

read_entry-Leaves :
    (field_name : Bytes) (found : Option Bytes) (cs : Bytes)
    → Leaves (λ s. b'"' ∷ behind_found s) (length cs) (read_entry field_name found cs)
unfolding read_entry
read_entry-Leaves field_name found cs =
    Leaves-then (parse_json_string-Leaves (skip_whitespace cs)) λ key l.
      Leaves-then (read_colon-Leaves (str_eq key.0 field_name) found (skip_whitespace key.1)) λ s m.
        leaves (
          omega
            (arith, l, m, skip_whitespace-le cs, skip_whitespace-le key.1, skip_whitespace-le s.1))

finish_object_ends :
    (found : Option Bytes) (cs : Bytes) → finish_object found cs ≢ failed internal_error
unfolding finish_object
finish_object_ends found (c ∷ cs) = cc
finish_object_ends none [] = cc
finish_object_ends (some value) [] = cc

if_ends :
    (b : Bool) {r s : Json Bytes}
    → (b ≡ true → r ≢ failed internal_error)
    → s ≢ failed internal_error
    → (if b then r else s) ≢ failed internal_error
if_ends true hr hs = hr refl
if_ends false hr hs = hs

then_ends {ℓ} :
    {A : Type ℓ} {left : A → Bytes} {n : ℕ} {r : Json A} {k : A → Json Bytes}
    → Leaves left n r
    → ((a : A) → length (left a) ≤ n → k a ≢ failed internal_error)
    → then_json r k ≢ failed internal_error
then_ends (leaves {a} l) h = h a l
then_ends (fails e) h = λ p. e (cc p)

read_entries-ends :
    (fuel : ℕ) (field_name : Bytes) (found : Option Bytes) (cs : Bytes)
    → length cs < fuel
    → read_entries fuel field_name found cs ≢ failed internal_error
unfolding read_entries
read_entries-ends zero field_name found cs h = absurd (omega arith)
read_entries-ends (suc fuel) field_name found cs h =
    then_ends (read_entry-Leaves field_name found cs) λ s l.
      if_ends (starts b',' s.1)
        (λ _.
          read_entries-ends fuel field_name s.0 (advance s.1) (omega (arith, l, advance-le s.1)))
        (if_ends (starts b'}' s.1) (λ _. finish_object_ends s.0 (skip_whitespace (advance s.1)))
          (cc))

pub json_extract-ends :
    (json field_name : Bytes) → json_extract_string_field json field_name ≢ failed internal_error
unfolding json_extract_string_field
json_extract-ends json field_name =
    let object = skip_whitespace json in
    let entries = skip_whitespace (advance object) in
    if_ends (starts b'{' object)
      (λ _.
        if_ends (starts b'}' entries) (λ _. cc)
          (read_entries-ends (suc (length json)) field_name none entries (
            omega (
              arith,
              skip_whitespace-le json,
              advance-le object,
              skip_whitespace-le (advance object),
            ))))
      (cc)
