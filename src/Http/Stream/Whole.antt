-- ===== src/Http/Stream/Whole.antt =====
-- src/http.c: a request read in pieces is the request read whole.
use threaded_db_api_server.Prelude.{
  ℕ, ◌+◌, ◌<◌, ◌≡◌, refl, ap, sym, ◌∙◌, ◌⊎◌, inl, inr, none, some, Option-cases, ◌++◌, append_assoc,
  take, drop, drop-append_le, ltb, lt→ltb,
}
use threaded_db_api_server.Prelude.Bytes.{Bytes}
use threaded_db_api_server.Http.Head.{
  HttpRead, http_ok, failed, bad_request, ◌>>=◌, HttpRequest, Strtoull, RequestHead,
  find_header_end, parse_head, request_of, max_header_size,
}
use threaded_db_api_server.Http.Head.Prefix.{blank, find_header_end_lem, find_bound, find-append}
use threaded_db_api_server.Http.Head.Same.{bind_same, if_same, parse_head_same}
use threaded_db_api_server.Http.{Socket, Headed, read_rest, read_body, turns, http_read_request}
use threaded_db_api_server.Http.Stream.{stream, Flows, whole_body, whole_from, read_whole}
use threaded_db_api_server.Http.Stream.Calls.{HeadRead, missing, found, read_head-HeadRead}
use threaded_db_api_server.Http.Stream.Body.{read_body-whole_body}

module _ (strtoull : Strtoull) where
  -- Bytes behind the blank line do not change the head.
  parse_head-append :
      (b x : Bytes) (i : ℕ)
      → find_header_end b ≡ some i
      → parse_head strtoull b ≡ parse_head strtoull (b ++ x)
  parse_head-append b x i e =
      let (h, z, same, n) = find_header_end_lem b i e in
      ap (parse_head strtoull) same
      ∙ parse_head_same strtoull h z (z ++ x)
      ∙ ap (parse_head strtoull) (sym (append_assoc h (blank z) x) ∙ ap (λ r. r ++ x) (sym same))

  whole-missing :
      (bytes : Bytes)
      → ((i : ℕ) → find_header_end bytes ≡ some i → max_header_size < i + 4)
      → read_whole strtoull bytes ≡ failed bad_request
  unfolding read_whole
  whole-missing bytes h = go (Option-cases (find_header_end bytes))
    where
      go :
          (find_header_end bytes ≡ none) ⊎ ((i : ℕ) × (find_header_end bytes ≡ some i))
          → whole_from strtoull bytes (find_header_end bytes) ≡ failed bad_request
      go (inl e) = rw e refl
      go (inr (i, e)) = rw (e, lt→ltb max_header_size (i + 4) (h i e)) refl

  whole-found :
      (b : Bytes) (t : Socket) (i : ℕ)
      → Flows t
      → find_header_end b ≡ some i
      → read_rest strtoull ((b, i), t) ≡ whole_from strtoull (b ++ stream t) (some i)
  unfolding read_rest whole_from
  whole-found b t i f e = if_same (ltb max_header_size (i + 4)) _ _ _ (
      bind_same (parse_head strtoull b) _ _ (λ head. ap (λ r. r >>= answer head) (body head))
      ∙ ap
          (λ r. r >>= λ head.
            whole_body head.body_length (drop (i + 4) (b ++ stream t)) >>= answer head)
          (parse_head-append b (stream t) i e))
    where
      answer : RequestHead → Bytes → HttpRead HttpRequest
      answer head body = http_ok (request_of head body)

      body :
          (head : RequestHead)
          → read_body (turns t) head.body_length (take head.body_length (drop (i + 4) b)) t
            ≡ whole_body head.body_length (drop (i + 4) (b ++ stream t))
      body head =
          read_body-whole_body head.body_length (drop (i + 4) b) t f
          ∙ ap (whole_body head.body_length)
              (sym (drop-append_le (i + 4) b (stream t) (find_bound b i e)))

  rest_lem :
      (bytes : Bytes) {r : HttpRead Headed}
      → HeadRead bytes r
      → (r >>= λ headed. read_rest strtoull headed) ≡ read_whole strtoull bytes
  unfolding read_whole
  rest_lem bytes (missing h) = sym (whole-missing bytes h)
  rest_lem bytes (found {buffer} {i} {t} f same e) =
      whole-found buffer t i f e
      ∙ ap (whole_from strtoull (buffer ++ stream t)) (sym (find-append buffer (stream t) i e))
      ∙ ap (read_whole strtoull) same

  -- Of a socket whose calls of `recv` bring bytes or are interrupted until the end (`Flows`), the
  -- request that is read is that of the bytes taken whole, in whatever pieces they arrive.
  pub http_read_request-read_whole :
      (s : Socket) → Flows s → http_read_request strtoull s ≡ read_whole strtoull (stream s)
  unfolding http_read_request
  http_read_request-read_whole s f = rest_lem (stream s) (read_head-HeadRead s f)
