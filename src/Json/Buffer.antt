-- ===== src/Json/Buffer.antt =====
-- src/json_writer.c and include/json_writer.h: the buffer that a JSON text is written to, with its capacity.
--
-- Memory does not run out. `realloc` keeps the bytes. A capacity is a `size_t` of 64 bits: doubling
-- it wraps round, so that the loop of the source has no end for a text of 2 ^ 63 bytes or more.
pub mod Room
use threaded_db_api_server.Prelude.{
  ℕ, zero, suc, ◌+◌, ◌*◌, ◌≤◌, ◌<◌, ◌≡◌, refl, arith, ◌⊎◌, inl, inr, Bool-cases, true, false, subst,
  sym, ◌%◌, ◌^◌, Option, none, some, [], ◌∷◌, ◌++◌, length, leb, ◌==◌, if◌then◌else◌,
}
use threaded_db_api_server.Prelude.Bytes.{Bytes}

-- `data` up to the NUL behind it, whose length is `len`.
pub record JsonBuffer : Type 0 where
  pub bytes : Bytes
  pub cap : ℕ

unfoldable pub json_buffer_init : JsonBuffer
json_buffer_init = record { bytes = []; cap = 256 }

-- Freed, as `memset` leaves it.
unfoldable pub json_buffer_free : JsonBuffer → JsonBuffer
json_buffer_free buf = record { bytes = []; cap = 0 }

-- The bytes are handed over, and the buffer is left empty.
unfoldable pub json_buffer_take : JsonBuffer → Bytes × JsonBuffer
json_buffer_take buf = (buf.bytes, record { bytes = []; cap = 0 })

-- `while (required_len + 1U > new_cap) new_cap *= 2U;`, on fuel.
unfoldable pub double_cap : ℕ → ℕ → ℕ → Option ℕ
double_cap zero needed new_cap = if leb needed new_cap then some new_cap else none
double_cap (suc fuel) needed new_cap =
    let rest = double_cap fuel needed (new_cap * 2 % 2 ^ 64) in
    if leb needed new_cap then some new_cap else rest

with_cap : JsonBuffer → Option ℕ → Option JsonBuffer
with_cap buf none = none
with_cap buf (some new_cap) = some (record buf { cap = new_cap })

-- There is nothing where the loop has no end.
unfoldable pub reserve : JsonBuffer → ℕ → Option JsonBuffer
unfolding with_cap double_cap
reserve buf needed =
    if leb needed buf.cap
    then some buf
    else with_cap buf (double_cap 63 needed (if buf.cap == 0 then 256 else buf.cap))

unfoldable pub json_ensure_capacity : JsonBuffer → ℕ → Option JsonBuffer
unfolding reserve
json_ensure_capacity buf required_len = reserve buf ((required_len + 1) % 2 ^ 64)

put_text : Bytes → Option JsonBuffer → Option JsonBuffer
put_text text none = none
put_text text (some buf) = some (record buf { bytes = buf.bytes ++ text })

unfoldable pub json_append : JsonBuffer → Bytes → Option JsonBuffer
unfolding put_text
json_append buf text =
    put_text text (json_ensure_capacity buf ((length buf.bytes + length text) % 2 ^ 64))

unfoldable pub json_append_char : JsonBuffer → ℕ → Option JsonBuffer
unfolding put_text
json_append_char buf ch =
    put_text (ch ∷ []) (json_ensure_capacity buf ((length buf.bytes + 1) % 2 ^ 64))

-- There is room for the bytes and the NUL.
abbrev pub HasRoom : JsonBuffer → Type 0
HasRoom buf = length buf.bytes < buf.cap
