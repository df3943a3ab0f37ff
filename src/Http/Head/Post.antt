-- ===== src/Http/Head/Post.antt =====
-- src/http.c: what is read of a POST as a client writes it.
use threaded_db_api_server.Prelude.{
  ℕ, suc, ◌≤◌, ◌<◌, ◌^◌, ◌≡◌, refl, ap, ◌∙◌, false, none, some, [], ◌∷◌, ◌++◌, length, le→ltb, ◌==◌,
  arith,
}
use threaded_db_api_server.Prelude.Bytes.{Bytes, codes, str_eq}
use threaded_db_api_server.Ids.{print_u64}
use threaded_db_api_server.Ids.Digits.{FromZero}
use threaded_db_api_server.Http.Head.{
  http_ok, ◌>>=◌, Strtoull, at_crlf, at_blank, find_header_end, split_line, skip_blanks,
  header_loop, headers_from, header_line, content_length_value, length_value, strip_any_case,
  head_length, parse_content_length, parse_head, head_of, max_body_size, checked_length,
}
use threaded_db_api_server.Http.Head.Prefix.{blank}
use threaded_db_api_server.Http.Head.Same.{split-later, last_turn}

-- The decimal text of a 64-bit number is read to its end, as that number.
pub ReadsDecimal : Strtoull → Type 0
ReadsDecimal strtoull = (n : ℕ) → n < 2 ^ 64 → strtoull (print_u64 n) ≡ (n, [])

no_blank : (c : ℕ) (cs : Bytes) → (c == b'\r') ≡ false → at_blank (c ∷ cs) ≡ false
no_blank c [] e = refl
no_blank c (b ∷ cs) e = rw e refl

no_crlf : (c : ℕ) (cs : Bytes) → (c == b'\r') ≡ false → at_crlf (c ∷ cs) ≡ false
no_crlf c [] e = refl
no_crlf c (b ∷ cs) e = rw e refl

digit-ne : (c k : ℕ) → b'0' ≤ c → k < b'0' → (c == k) ≡ false
digit-ne c k h l = ground arith

find-digits : (cs z : Bytes) → FromZero cs → find_header_end (cs ++ blank z) ≡ some (length cs)
unfolding find_header_end
find-digits [] z h = refl
find-digits (c ∷ cs) z h =
    rw (no_blank c (cs ++ blank z) (digit-ne c b'\r' h.0 (omega arith)), find-digits cs z h.1) refl

split-digits :
    (cs z : Bytes) → FromZero cs → split_line (cs ++ blank z) ≡ some (cs, b'\r' ∷ b'\n' ∷ z)
unfolding split_line
split-digits [] z h = refl
split-digits (c ∷ cs) z h =
    split-later c (cs ++ blank z) cs (b'\r' ∷ b'\n' ∷ z) (digit-ne c 0 h.0 (omega arith))
      (no_crlf c (cs ++ blank z) (digit-ne c b'\r' h.0 (omega arith))) (split-digits cs z h.1)

skip_blanks-digits : (cs : Bytes) → FromZero cs → skip_blanks cs ≡ cs
unfolding skip_blanks
skip_blanks-digits [] h = refl
skip_blanks-digits (c ∷ cs) h = ground (arith, h.0)

-- "POST /query HTTP/1.1" and its Content-Length, up to the blank line
abbrev pub post_head : Bytes → Bytes
post_head digits = codes "POST /query HTTP/1.1\r\nContent-Length: " ++ digits

pub find-post_head :
    (cs z : Bytes)
    → FromZero cs
    → find_header_end (post_head cs ++ blank z) ≡ some (length (post_head cs))
unfolding find_header_end
find-post_head cs z h = rw (no_blank b' ' (cs ++ blank z) refl, find-digits cs z h) refl

module _ (strtoull : Strtoull) (n c : ℕ) (ds z : Bytes) where
  length_line :
      FromZero (c ∷ ds)
      → strtoull (c ∷ ds) ≡ (n, [])
      → header_line strtoull none (some (b' ' ∷ c ∷ ds)) ≡ http_ok (some n)
  unfolding header_line skip_blanks content_length_value length_value
  length_line h e = rw (skip_blanks-digits (c ∷ ds) h, e) refl

  -- One header, and the blank line.
  one_header :
      (m k d : ℕ) (cs line : Bytes)
      → (k == 0) ≡ false
      → split_line (k ∷ cs) ≡ some (d ∷ line, b'\r' ∷ b'\n' ∷ z)
      → header_line strtoull none (strip_any_case (codes "CONTENT-LENGTH:") (d ∷ line))
        ≡ http_ok (some n)
      → header_loop (suc (suc m)) strtoull none (k ∷ cs) ≡ http_ok (some n)
  unfolding header_loop headers_from
  one_header m k d cs line e s found = rw (e, s, found) (last_turn m strtoull (some n) z)

  headers_lem :
      FromZero (c ∷ ds)
      → strtoull (c ∷ ds) ≡ (n, [])
      → parse_content_length strtoull ((codes "Content-Length: " ++ c ∷ ds) ++ blank z)
        ≡ http_ok (some n)
  unfolding parse_content_length split_line strip_any_case
  headers_lem h e =
      one_header (length ((codes "ntent-Length: " ++ c ∷ ds) ++ blank z)) b'C' b'C'
        ((codes "ontent-Length: " ++ c ∷ ds) ++ blank z) (codes "ontent-Length: " ++ c ∷ ds) refl
        (rw (split-digits (c ∷ ds) z h) refl) (length_line h e)

  length_lem :
      FromZero (c ∷ ds)
      → strtoull (c ∷ ds) ≡ (n, [])
      → n ≤ max_body_size
      → head_length strtoull (codes "POST") ((codes "Content-Length: " ++ c ∷ ds) ++ blank z)
        ≡ http_ok n
  unfolding head_length str_eq
  length_lem h e m = ap (λ r. r >>= checked_length) (headers_lem h e) ∙ checked m
    where
      checked : n ≤ max_body_size → checked_length (some n) ≡ http_ok n
      checked m = rw (le→ltb max_body_size n m) refl

  pub parse_head-post :
      FromZero (c ∷ ds)
      → strtoull (c ∷ ds) ≡ (n, [])
      → n ≤ max_body_size
      → parse_head strtoull (post_head (c ∷ ds) ++ blank z)
        ≡ http_ok (head_of (codes "POST", codes "/query") n)
  unfolding parse_head split_line
  parse_head-post h e m =
      ap (λ r. r >>= λ k. http_ok (head_of (codes "POST", codes "/query") k)) (length_lem h e m)
