-- ===== src/Http/Head.antt =====
-- src/http.c and include/http.h: the head of a request.
--
-- The buffer is read as a C string, so that a NUL in it ends the text. A line is cut off at the
-- first "\r\n".
pub mod Prefix
pub mod Same
pub mod Limits
pub mod Post
use threaded_db_api_server.Prelude.{
  ℕ, zero, suc, Bool, true, false, not, ◌&&◌, ◌||◌, Option, none, some, [], ◌∷◌, length, ltb, leb,
  ◌==◌, if◌then◌else◌,
}
use mathlib.Core.Option
use threaded_db_api_server.Prelude.Bytes.{Bytes, codes, str_eq, to_upper}

abbrev pub max_header_size : ℕ
max_header_size = 8192

abbrev pub max_body_size : ℕ
max_body_size = 8192

abbrev pub max_method_size : ℕ
max_method_size = 8

abbrev pub max_path_size : ℕ
max_path_size = 256

-- `HttpReadStatus` but for HTTP_READ_OK
pub data HttpReadStatus : Type 0 where
  bad_request payload_too_large internal_error : HttpReadStatus

-- HTTP_READ_OK with what was read, or another status
pub data HttpRead {ℓ} (A : Type ℓ) : Type ℓ where
  http_ok : A → HttpRead A
  failed : HttpReadStatus → HttpRead A

infixl 5 ◌>>=◌
abbrev pub ◌>>=◌ {ℓ κ} : {A : Type ℓ} {B : Type κ} → HttpRead A → (A → HttpRead B) → HttpRead B
http_ok read >>= next = next read
failed status >>= next = failed status

-- `HttpRequest`; the body is `body_len` bytes.
pub record HttpRequest : Type 0 where
  pub method : Bytes
  pub path : Bytes
  pub body : Bytes

abbrev pub http_request_free : HttpRequest → HttpRequest
http_request_free req = record { method = []; path = []; body = [] }

-- `strtoull(text, &endptr, 10)`: the value, and the text from `endptr` on
abbrev pub Strtoull : Type 0
Strtoull = Bytes → ℕ × Bytes

abbrev pub at_crlf : Bytes → Bool
at_crlf [] = false
at_crlf (a ∷ []) = false
at_crlf (a ∷ b ∷ cs) = a == b'\r' && b == b'\n'

abbrev pub at_blank : Bytes → Bool
at_blank [] = false
at_blank (a ∷ []) = false
at_blank (a ∷ b ∷ cs) = (a == b'\r' && b == b'\n') && at_crlf cs

unfoldable pub find_header_end : Bytes → Option ℕ
find_header_end [] = none
find_header_end (c ∷ cs) =
    let later = Option.map (λ i. suc i) (find_header_end cs) in
    if at_blank (c ∷ cs) then some 0 else later

-- The two bytes of "\r\n" are dropped.
abbrev pub behind_crlf : Bytes → Bytes
behind_crlf [] = []
behind_crlf (a ∷ []) = []
behind_crlf (a ∷ b ∷ cs) = cs

-- `strstr(text, "\r\n")`: the text before it and the text behind it.
unfoldable pub split_line : Bytes → Option (Bytes × Bytes)
split_line [] = none
split_line (c ∷ cs) =
    let later = Option.map (λ s. (c ∷ s.0, s.1)) (split_line cs) in
    if c == 0 then none else if at_crlf (c ∷ cs) then some ([], behind_crlf (c ∷ cs)) else later

-- `strchr(text, ' ')`, likewise
unfoldable pub split_space : Bytes → Option (Bytes × Bytes)
split_space [] = none
split_space (c ∷ cs) =
    let later = Option.map (λ s. (c ∷ s.0, s.1)) (split_space cs) in
    if c == b' ' then some ([], cs) else later

-- `strncmp(text, word, strlen(word)) == 0`
unfoldable pub starts_with : Bytes → Bytes → Bool
starts_with [] cs = true
starts_with (w ∷ word) [] = false
starts_with (w ∷ word) (c ∷ cs) = w == c && starts_with word cs

-- The method, the path and the version, as far as they fit `HttpRequest`.
unfoldable pub request_line_of : Bytes → Bytes → Bytes → HttpRead (Bytes × Bytes)
unfolding starts_with
request_line_of method path version =
    if length method == 0
      || leb max_method_size (length method)
      || length path == 0
      || leb max_path_size (length path)
      || length version == 0
      || not (starts_with (codes "HTTP/") version)
    then failed bad_request
    else http_ok (method, path)

second_word : Bytes → Option (Bytes × Bytes) → HttpRead (Bytes × Bytes)
second_word method none = failed bad_request
second_word method (some (path, version)) = request_line_of method path version

first_word : Option (Bytes × Bytes) → HttpRead (Bytes × Bytes)
unfolding second_word
first_word none = failed bad_request
first_word (some (method, rest)) = second_word method (split_space rest)

unfoldable pub parse_request_line : Bytes → HttpRead (Bytes × Bytes)
unfolding first_word split_space request_line_of
parse_request_line line = first_word (split_space line)

-- `strncasecmp(line, word, strlen(word)) == 0`, with what stands behind; the word is in capitals.
unfoldable pub strip_any_case : Bytes → Bytes → Option Bytes
strip_any_case [] cs = some cs
strip_any_case (w ∷ word) [] = none
strip_any_case (w ∷ word) (c ∷ cs) =
    let rest = strip_any_case word cs in if w == to_upper c then rest else none

unfoldable pub skip_blanks : Bytes → Bytes
skip_blanks [] = []
skip_blanks (c ∷ cs) = let rest = skip_blanks cs in if c == b' ' || c == b'\t' then rest else c ∷ cs

-- The value of the header, which is all of a decimal number.
length_value : ℕ × Bytes → HttpRead ℕ
length_value (n, []) = http_ok n
length_value (n, c ∷ cs) = failed bad_request

unfoldable pub content_length_value : Strtoull → Bytes → HttpRead ℕ
unfolding length_value
content_length_value strtoull [] = failed bad_request
content_length_value strtoull (c ∷ cs) = length_value (strtoull (c ∷ cs))

-- A line of the headers, with the length that was found before it.
pub header_line : Strtoull → Option ℕ → Option Bytes → HttpRead (Option ℕ)
unfolding content_length_value skip_blanks
header_line strtoull found none = http_ok found
header_line strtoull (some n) (some value) = failed bad_request
header_line strtoull none (some value) =
    content_length_value strtoull (skip_blanks value) >>= λ n. http_ok (some n)

-- One turn of the loop, `more` being the turns behind it.
pub headers_from :
    Strtoull
    → Option ℕ
    → (Option ℕ → Bytes → HttpRead (Option ℕ))
    → Option (Bytes × Bytes)
    → HttpRead (Option ℕ)
unfolding header_line strip_any_case
headers_from strtoull found more none = failed bad_request
headers_from strtoull found more (some ([], rest)) = http_ok found
headers_from strtoull found more (some (c ∷ line, rest)) =
    header_line strtoull found (strip_any_case (codes "CONTENT-LENGTH:") (c ∷ line)) >>= λ now.
    more now rest

-- The loop, on fuel: each turn takes a line. Without fuel the status is one it never gives.
unfoldable pub header_loop : ℕ → Strtoull → Option ℕ → Bytes → HttpRead (Option ℕ)
unfolding headers_from
header_loop fuel strtoull found [] = http_ok found
header_loop zero strtoull found (c ∷ cs) = failed internal_error
header_loop (suc fuel) strtoull found (c ∷ cs) =
    if c == 0
    then http_ok found
    else headers_from strtoull found (λ now rest. header_loop fuel strtoull now rest)
        (split_line (c ∷ cs))

-- 0 with the length, 1 where there is none, or -1
unfoldable pub parse_content_length : Strtoull → Bytes → HttpRead (Option ℕ)
unfolding header_loop
parse_content_length strtoull headers = header_loop (length headers) strtoull none headers

-- What the head says of the request.
pub record RequestHead : Type 0 where
  pub method : Bytes
  pub path : Bytes
  pub body_length : ℕ

abbrev pub request_of : RequestHead → Bytes → HttpRequest
request_of head body = record { method = head.method; path = head.path; body = body }

abbrev pub head_of : Bytes × Bytes → ℕ → RequestHead
head_of words n = record { method = words.0; path = words.1; body_length = n }

-- A length that is there and not too large.
pub checked_length : Option ℕ → HttpRead ℕ
checked_length none = failed bad_request
checked_length (some n) = if ltb max_body_size n then failed payload_too_large else http_ok n

-- Only a POST has a body.
pub head_length : Strtoull → Bytes → Bytes → HttpRead ℕ
unfolding parse_content_length checked_length
head_length strtoull method headers =
    if str_eq method (codes "POST")
    then parse_content_length strtoull headers >>= checked_length
    else http_ok 0

pub head_from : Strtoull → Option (Bytes × Bytes) → HttpRead RequestHead
unfolding parse_request_line head_length
head_from strtoull none = failed bad_request
head_from strtoull (some (line, headers)) = parse_request_line line >>= λ words.
    head_length strtoull words.0 headers >>= λ n. http_ok (head_of words n)

-- From the first line of the buffer on, up to the body.
unfoldable pub parse_head : Strtoull → Bytes → HttpRead RequestHead
unfolding head_from split_line
parse_head strtoull buffer = head_from strtoull (split_line buffer)
