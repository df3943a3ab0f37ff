-- ===== src/Json/Buffer/Room.antt =====
-- src/json_writer.c: the buffer has room for what is appended.
use threaded_db_api_server.Prelude.{
  ℕ, zero, suc, ◌+◌, ◌*◌, ◌≤◌, ◌<◌, ◌%◌, ◌^◌, ◌≡◌, refl, arith, ◌⊎◌, inl, inr, Bool-cases, true,
  false, Option, some, ◌++◌, length, length-append, leb, ◌==◌, if◌then◌else◌, subst,
}
use threaded_db_api_server.Prelude.Bytes.{Bytes}
use threaded_db_api_server.Json.Buffer.{
  JsonBuffer, double_cap, reserve, json_ensure_capacity, json_append, HasRoom,
}

-- The capacity after some doublings.
reach : ℕ → ℕ → ℕ
reach zero size = size
reach (suc n) size = reach n (size * 2)

reach_mono : (n a b : ℕ) → a ≤ b → reach n a ≤ reach n b
unfolding reach
reach_mono zero a b h = h
reach_mono (suc n) a b h = reach_mono n (a * 2) (b * 2) (omega arith)

reach_63 : (size : ℕ) → 1 ≤ size → 2 ^ 63 ≤ reach 63 size
unfolding reach
reach_63 size h = reach_mono 63 1 size h

-- The loop ends, with a capacity that is enough.
Doubled : ℕ → Option ℕ → Type 0
Doubled needed r = (size : ℕ) × (r ≡ some size) × (needed ≤ size)

double_cap_lem :
    (fuel needed size : ℕ)
    → needed ≤ 2 ^ 63
    → needed ≤ reach fuel size
    → Doubled needed (double_cap fuel needed size)
unfolding double_cap reach Doubled
double_cap_lem zero needed size h r = (size, ground arith, r)
double_cap_lem (suc fuel) needed size h r = go (Bool-cases (leb needed size)) (λ e.
    double_cap_lem fuel needed (size * 2 % 2 ^ 64) h
      (subst (λ m. needed ≤ reach fuel m) {x = size * 2} {y = size * 2 % 2 ^ 64} (ground arith) r))
  where
    go :
        (leb needed size ≡ true) ⊎ (leb needed size ≡ false)
        → (leb needed size ≡ false → Doubled needed (double_cap fuel needed (size * 2 % 2 ^ 64)))
        → Doubled needed (double_cap (suc fuel) needed size)
    go (inl e) ih = (size, rw e refl, ground arith)
    go (inr e) ih = let (larger, same, enough) = ih e in (larger, rw e same, enough)

start_lem : (size : ℕ) → 1 ≤ (if size == 0 then 256 else size)
start_lem size = ground arith

-- The bytes are kept, and the capacity is enough.
Reserved : JsonBuffer → ℕ → Option JsonBuffer → Type 0
Reserved buf needed r =
    (size : ℕ) × (r ≡ some (record { bytes = buf.bytes; cap = size })) × (needed ≤ size)

reserve_lem :
    (buf : JsonBuffer) (needed : ℕ) → needed ≤ 2 ^ 63 → Reserved buf needed (reserve buf needed)
unfolding reserve Reserved Doubled
reserve_lem buf needed h =
    go (Bool-cases (leb needed buf.cap))
      (double_cap_lem 63 needed _ h (within _ (reach_63 _ (start_lem buf.cap))))
  where
    within : (m : ℕ) → 2 ^ 63 ≤ m → needed ≤ m
    within m k = omega arith

    go :
        (leb needed buf.cap ≡ true) ⊎ (leb needed buf.cap ≡ false)
        → Doubled needed (double_cap 63 needed (if buf.cap == 0 then 256 else buf.cap))
        → Reserved buf needed (reserve buf needed)
    go (inl e) d = (buf.cap, rw e refl, ground arith)
    go (inr e) (size, same, enough) = (size, rw (e, same) refl, enough)

ensure_lem :
    (buf : JsonBuffer) (required_len : ℕ)
    → required_len < 2 ^ 63
    → Reserved buf (required_len + 1) (json_ensure_capacity buf required_len)
unfolding json_ensure_capacity Reserved
ensure_lem buf required_len h =
    subst (λ n. Reserved buf (required_len + 1) (reserve buf n)) {x = required_len + 1}
      {y = (required_len + 1) % 2 ^ 64} (omega arith)
      (reserve_lem buf (required_len + 1) (omega arith))

-- Appending a text to a JSON buffer gives a buffer with the old bytes and the new ones behind them
-- and room for the NUL, if they are fewer than 2^63 bytes together: the loop that doubles the
-- capacity ends.
pub json_append-HasRoom :
    (buf : JsonBuffer) (text : Bytes)
    → length buf.bytes + length text < 2 ^ 63
    → (grown : JsonBuffer) × (json_append buf text ≡ some grown)
      × (grown.bytes ≡ buf.bytes ++ text)
      × HasRoom grown
unfolding json_append Reserved
json_append-HasRoom buf text h =
    let len = length buf.bytes + length text in
    let whole : len % 2 ^ 64 ≡ len = omega arith in
    let (size, same, enough) = ensure_lem buf len h in
    (
      record { bytes = buf.bytes ++ text; cap = size },
      rw (whole, same) refl,
      refl,
      rw (length-append buf.bytes text) (omega arith),
    )
