-- ===== src/Ids.antt =====
-- src/runtime.c: the text of stored ids, `parse_canonical_positive_uint64` with its two callers
-- `parse_stored_id_value` and `try_parse_indexable_id_literal`, and the decimal text that
-- `snprintf` makes of an id for `build_insert_row_with_generated_id` of src/executor.c.
pub mod RoundTrip
pub mod Digits
use threaded_db_api_server.Prelude.{
  ℕ, zero, suc, ◌+◌, ◌-◌, ◌*◌, ◌/◌, ◌%◌, ◌^◌, Bool, ◌||◌, Option, none, some, List, [], ◌∷◌, ◌++◌,
  ltb, ◌==◌, if◌then◌else◌,
}
use threaded_db_api_server.Prelude.Bytes.{Bytes}

-- UINT64_MAX
abbrev pub u64_max : ℕ
u64_max = 2 ^ 64 - 1

-- the loop over the digits from `value` on; `none` is the result 0 of the source
unfoldable pub parse_digits : ℕ → Bytes → Option ℕ
parse_digits value [] = some value
parse_digits value (c ∷ cs) =
    let digit = c - b'0' in
    let rest = parse_digits ((value * 10 + digit) % 2 ^ 64) cs in
    if ltb c b'0' || ltb b'9' c
    then none
    else if ltb ((u64_max - digit) / 10) value
    then none
    else rest

positive : Option ℕ → Option ℕ
positive none = none
positive (some value) = if value == 0 then none else some value

unfoldable pub parse_canonical_positive_uint64 : Bytes → Option ℕ
unfolding parse_digits positive
parse_canonical_positive_uint64 [] = none
parse_canonical_positive_uint64 (c ∷ cs) =
    if c == b'0' then none else positive (parse_digits 0 (c ∷ cs))

-- at most `fuel` digits
pub decimal : ℕ → ℕ → Bytes
decimal zero n = []
decimal (suc fuel) n =
    let front = decimal fuel (n / 10) in
    (if n / 10 == 0 then [] else front) ++ ((b'0' + n % 10) ∷ [])

-- `snprintf` of a `uint64_t` with PRIu64: 20 digits are enough
unfoldable pub print_u64 : ℕ → Bytes
unfolding decimal
print_u64 n = decimal 20 n
