-- ===== src/Storage/Lines/Bounds.antt =====
-- src/storage.c: `read_line` makes progress, stays within the file, and takes one line.
use threaded_db_api_server.Prelude.{
  ℕ, suc, ◌≤◌, ◌<◌, ◌≡◌, ◌≢◌, refl, ap, some, [], ◌∷◌, ◌++◌, ◌==◌, false, length, drop, arith, All,
}
use threaded_db_api_server.Prelude.Bytes.{Bytes, c_str}
use threaded_db_api_server.Storage.Lines.{line_bytes, line_size, strip_cr, read_line}

abbrev pub NoNewline : Bytes → Type 0
NoNewline = All (λ c. (c == b'\n') ≡ false)

abbrev pub NoNul : Bytes → Type 0
NoNul = All (λ c. (c == 0) ≡ false)

pub line_size-le : (bs : Bytes) → line_size bs ≤ length bs
unfolding line_size
line_size-le [] = omega arith
line_size-le (c ∷ cs) = ground (arith, line_size-le cs)

line_size-pos : (c : ℕ) (cs : Bytes) → 0 < line_size (c ∷ cs)
unfolding line_size
line_size-pos c cs = ground arith

-- A line that is read moves the file position forward, and not past the end of the file.
pub read_line_bounds :
    (bs : Bytes) {l : Bytes} {n : ℕ} → read_line bs ≡ some (l, n) → (0 < n) × (n ≤ length bs)
unfolding read_line
read_line_bounds [] e = cc
read_line_bounds (c ∷ cs) {n = n} e =
    let same : line_size (c ∷ cs) ≡ n = cc in
    rw (← same) (line_size-pos c cs, line_size-le (c ∷ cs))

line_bytes-append : (t rest : Bytes) → NoNewline t → line_bytes (t ++ (b'\n' ∷ rest)) ≡ t
unfolding line_bytes
line_bytes-append [] rest h = refl
line_bytes-append (c ∷ cs) rest h = rw h.0 (ap (λ r. c ∷ r) (line_bytes-append cs rest h.1))

line_size-append : (t rest : Bytes) → NoNewline t → line_size (t ++ (b'\n' ∷ rest)) ≡ suc (length t)
unfolding line_size
line_size-append [] rest h = refl
line_size-append (c ∷ cs) rest h = rw h.0 (ap suc (line_size-append cs rest h.1))

pub c_str_lem : (t : Bytes) → NoNul t → c_str t ≡ t
unfolding c_str
c_str_lem [] h = refl
c_str_lem (c ∷ cs) h = rw h.0 (ap (λ r. c ∷ r) (c_str_lem cs h.1))

strip_cr-NoNul : (t : Bytes) → NoNul t → NoNul (strip_cr t)
unfolding strip_cr
strip_cr-NoNul [] h = tt
strip_cr-NoNul (c ∷ []) h = ground arith
strip_cr-NoNul (c ∷ d ∷ cs) h = (h.0, strip_cr-NoNul (d ∷ cs) h.1)

-- One terminated line of text is read as that text, but for a carriage return at its end.
pub read_line-append :
    (t rest : Bytes)
    → NoNewline t
    → NoNul t
    → read_line (t ++ (b'\n' ∷ rest)) ≡ some (strip_cr t, suc (length t))
unfolding read_line
read_line-append [] rest h z = refl
read_line-append (c ∷ cs) rest h z = rw (
  line_bytes-append (c ∷ cs) rest h,
  line_size-append (c ∷ cs) rest h,
  c_str_lem (strip_cr (c ∷ cs)) (strip_cr-NoNul (c ∷ cs) z),
)

pub drop_line : (t rest : Bytes) → drop (suc (length t)) (t ++ (b'\n' ∷ rest)) ≡ rest
drop_line [] rest = refl
drop_line (c ∷ cs) rest = drop_line cs rest

-- A carriage return is looked for at the end of the last part only.
pub strip_cr-append : (xs ys : Bytes) → ys ≢ [] → strip_cr (xs ++ ys) ≡ xs ++ strip_cr ys
unfolding strip_cr
strip_cr-append xs [] h = absurd (h refl)
strip_cr-append [] (y ∷ ys) h = refl
strip_cr-append (x ∷ []) (y ∷ ys) h = refl
strip_cr-append (x ∷ z ∷ xs) (y ∷ ys) h = ap (λ r. x ∷ r) (strip_cr-append (z ∷ xs) (y ∷ ys) h)

pub strip_cr-cons :
    (c : ℕ) (ys : Bytes) → (c == b'\r') ≡ false → strip_cr (c ∷ ys) ≡ c ∷ strip_cr ys
unfolding strip_cr
strip_cr-cons c [] h = rw h
strip_cr-cons c (d ∷ ys) h = refl
