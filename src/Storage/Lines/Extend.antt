-- ===== src/Storage/Lines/Extend.antt =====
-- src/storage.c: what `read_line` reads of a file that ends in a newline, when more is appended.
use threaded_db_api_server.Prelude.{
  ℕ, zero, suc, ◌≡◌, ◌≢◌, refl, ap, none, some, [], ◌∷◌, ◌++◌, drop, ◌==◌, if◌then◌else◌, true,
}
use threaded_db_api_server.Prelude.Bytes.{Bytes}
use threaded_db_api_server.Storage.Lines.{line_bytes, line_size, read_line}

-- The file ends in a newline, or is empty.
abbrev pub IsTerminated : Bytes → Type 0
IsTerminated [] = Unit
IsTerminated (c ∷ []) = (c == b'\n') ≡ true
IsTerminated (c ∷ d ∷ cs) = IsTerminated (d ∷ cs)

IsTerminated-cons : (c : ℕ) (cs : Bytes) → IsTerminated (c ∷ cs) → IsTerminated cs
IsTerminated-cons c [] t = tt
IsTerminated-cons c (d ∷ cs) t = t

pub IsTerminated-drop : (n : ℕ) (bs : Bytes) → IsTerminated bs → IsTerminated (drop n bs)
IsTerminated-drop zero bs t = t
IsTerminated-drop (suc n) [] t = t
IsTerminated-drop (suc n) (c ∷ cs) t = IsTerminated-drop n cs (IsTerminated-cons c cs t)

pub IsTerminated-append : (xs ys : Bytes) → IsTerminated ys → ys ≢ [] → IsTerminated (xs ++ ys)
IsTerminated-append [] ys t h = t
IsTerminated-append (x ∷ []) [] t h = absurd (h refl)
IsTerminated-append (x ∷ []) (y ∷ ys) t h = t
IsTerminated-append (x ∷ z ∷ xs) ys t h = IsTerminated-append (z ∷ xs) ys t h

line_bytes-extend :
    (c : ℕ) (cs extra : Bytes)
    → IsTerminated (c ∷ cs)
    → line_bytes (c ∷ (cs ++ extra)) ≡ line_bytes (c ∷ cs)
unfolding line_bytes
line_bytes-extend c [] extra t = rw t
line_bytes-extend c (d ∷ cs) extra t =
    ap (λ r. if c == b'\n' then [] else c ∷ r) (line_bytes-extend d cs extra t)

line_size-extend :
    (c : ℕ) (cs extra : Bytes)
    → IsTerminated (c ∷ cs)
    → line_size (c ∷ (cs ++ extra)) ≡ line_size (c ∷ cs)
unfolding line_size
line_size-extend c [] extra t = rw t
line_size-extend c (d ∷ cs) extra t =
    ap (λ r. if c == b'\n' then 1 else suc r) (line_size-extend d cs extra t)

-- A terminated line is read in the same way whatever is written behind it.
pub read_line-extend :
    (bs extra : Bytes) → bs ≢ [] → IsTerminated bs → read_line (bs ++ extra) ≡ read_line bs
unfolding read_line
read_line-extend [] extra h t = absurd (h refl)
read_line-extend (c ∷ cs) extra h t =
    rw (line_bytes-extend c cs extra t, line_size-extend c cs extra t)

pub read_line-eq-none : (bs : Bytes) → read_line bs ≡ none → bs ≡ []
unfolding read_line
read_line-eq-none [] e = refl
read_line-eq-none (c ∷ cs) e = cc

pub read_line-ne-nil : (bs : Bytes) {r : Bytes × ℕ} → read_line bs ≡ some r → bs ≢ []
unfolding read_line
read_line-ne-nil [] e h = cc
read_line-ne-nil (c ∷ cs) e h = cc

pub read_line-nil : read_line [] ≡ none
unfolding read_line
read_line-nil = refl
