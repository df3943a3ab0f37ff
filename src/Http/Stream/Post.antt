-- ===== src/Http/Stream/Post.antt =====
-- src/http.c: what is read of a POST as a client writes it.
use threaded_db_api_server.Prelude.{
  ℕ, suc, ◌+◌, ◌≤◌, ◌<◌, ◌^◌, ◌≡◌, refl, ap, sym, ◌∙◌, some, [], ◌∷◌, ◌++◌, length, length-append,
  drop, ltb, le→ltb, arith, false, subst,
}
use threaded_db_api_server.Prelude.Bytes.{Bytes, codes}
use threaded_db_api_server.Ids.{print_u64}
use threaded_db_api_server.Ids.Digits.{
  FromZero, print_u64-FromZero, print_u64-cons, length-print_u64,
}
use threaded_db_api_server.Http.Head.{
  http_ok, HttpRequest, Strtoull, parse_head, head_of, max_header_size, max_body_size,
}
use threaded_db_api_server.Http.Head.Prefix.{blank}
use threaded_db_api_server.Http.Head.Post.{post_head, find-post_head, parse_head-post}
use threaded_db_api_server.Http.Stream.{read_whole, whole_from, whole_body}
use threaded_db_api_server.Http.Stream.Body.{take_exact, whole_body-ok}

-- The decimal text of a 64-bit number is read to its end, as that number.
abbrev pub ReadsDecimal : Strtoull → Type 0
ReadsDecimal strtoull = (n : ℕ) → n < 2 ^ 64 → strtoull (print_u64 n) ≡ (n, [])

-- `POST /query` with a body
abbrev pub post_query : Bytes → HttpRequest
post_query body = record { method = codes "POST"; path = codes "/query"; body = body }

-- Its text, and what else the client has sent.
abbrev pub post_text : Bytes → Bytes → Bytes
post_text body more = post_head (print_u64 (length body)) ++ blank (body ++ more)

drop-blank : (h z : Bytes) → drop (length h + 4) (h ++ blank z) ≡ z
drop-blank [] z = refl
drop-blank (c ∷ h) z =
    ap (λ k. drop k (c ∷ h ++ blank z)) {x = suc (length h) + 4} {y = suc (length h + 4)}
      (omega arith)
    ∙ drop-blank h z

length-post_head :
    (cs : Bytes) → length cs ≤ 20 → ltb max_header_size (length (post_head cs) + 4) ≡ false
length-post_head cs h = le→ltb max_header_size _ (omega arith)

body_lem : (body more : Bytes) → whole_body (length body) (body ++ more) ≡ http_ok body
body_lem body more =
    whole_body-ok (length body) (body ++ more) body (omega (arith, length-append body more))
      (take_exact (length body) body more refl)

module _ (strtoull : Strtoull) where
  whole_from_lem :
      (bytes body method path : Bytes) (i n : ℕ)
      → ltb max_header_size (i + 4) ≡ false
      → parse_head strtoull bytes ≡ http_ok (head_of (method, path) n)
      → whole_body n (drop (i + 4) bytes) ≡ http_ok body
      → whole_from strtoull bytes (some i)
        ≡ http_ok (record { method = method; path = path; body = body })
  unfolding whole_from
  whole_from_lem bytes body method path i n small head rest = rw (small, head, rest) refl

  whole-post :
      (c : ℕ) (ds body more : Bytes)
      → length body ≤ max_body_size
      → FromZero (c ∷ ds)
      → length (c ∷ ds) ≤ 20
      → strtoull (c ∷ ds) ≡ (length body, [])
      → read_whole strtoull (post_head (c ∷ ds) ++ blank (body ++ more)) ≡ http_ok (post_query body)
  unfolding read_whole
  whole-post c ds body more m f l r =
      let text : Bytes = post_head (c ∷ ds) ++ blank (body ++ more) in
      let n = length body in
      ap (whole_from strtoull text) (find-post_head (c ∷ ds) (body ++ more) f)
      ∙ whole_from_lem text body (codes "POST") (codes "/query") (length (post_head (c ∷ ds))) n
          (length-post_head (c ∷ ds) l) (parse_head-post strtoull n c ds (body ++ more) f r m)
          (ap (whole_body n) (drop-blank (post_head (c ∷ ds)) (body ++ more)) ∙ body_lem body more)

  -- Whatever a client sends behind it, the POST is read, with its body, if that is within the limit.
  pub read_whole-post_text :
      (body more : Bytes)
      → ReadsDecimal strtoull
      → length body ≤ max_body_size
      → read_whole strtoull (post_text body more) ≡ http_ok (post_query body)
  read_whole-post_text body more reads m =
      let (c, ds, e) = print_u64-cons (length body) in
      let digits : Bytes → Bytes = λ cs. post_head cs ++ blank (body ++ more) in
      ap (λ cs. read_whole strtoull (digits cs)) e
      ∙ whole-post c ds body more m (subst FromZero e (print_u64-FromZero (length body)))
          (subst (λ cs. length cs ≤ 20) e (length-print_u64 (length body)))
          (ap strtoull (sym e) ∙ reads (length body) (omega arith))
