-- ===== src/Http.antt =====
-- src/http.c and include/http.h: a request read from a socket, and a response written to it.
--
-- A socket is what the calls of `recv` on it will see, in their order: bytes, an interruption, or a
-- failure, and then the end. A call takes the bytes that are there, or as many as it asks for, and
-- leaves the others to the next call. `strtoull` is a parameter: the value, and the text at
-- `*endptr`. Messages are left out, and memory does not run out.
pub mod Head
pub mod Stream
pub mod Limits
pub mod Response
use threaded_db_api_server.Prelude.{
  ℕ, zero, suc, ◌+◌, ◌-◌, Bool, true, false, Option, none, some, List, [], ◌∷◌, ◌++◌, length, take,
  drop, ltb, leb, min, ◌==◌, if◌then◌else◌,
}
use threaded_db_api_server.Prelude.Bytes.{Bytes, codes}
use threaded_db_api_server.Http.Head.{
  HttpRead, http_ok, failed, bad_request, payload_too_large, internal_error, ◌>>=◌, HttpRequest,
  Strtoull, RequestHead, find_header_end, parse_head, request_of, max_header_size, max_body_size,
}

pub data Event : Type 0 where
  arrives : Bytes → Event
  interrupted fails : Event

abbrev pub Socket : Type 0
Socket = List Event

-- What `recv` returns: bytes, none of them at the end; EINTR; another error.
pub data Received : Type 0 where
  received : Bytes → Received
  eintr error : Received

unfoldable pub recv : ℕ → Socket → Received × Socket
recv n [] = (received [], [])
recv n (interrupted ∷ s) = (eintr, s)
recv n (fails ∷ s) = (error, s)
recv n (arrives bytes ∷ s) =
    if leb (length bytes) n
    then (received bytes, s)
    else (received (take n bytes), arrives (drop n bytes) ∷ s)

-- The buffer, the index of the blank line in it, and the socket.
abbrev pub Headed : Type 0
Headed = (Bytes × ℕ) × Socket

pub found_or : Option ℕ → Bytes → Socket → HttpRead Headed → HttpRead Headed
found_or none buffer s more = more
found_or (some i) buffer s more = http_ok ((buffer, i), s)

-- One turn of the first loop, `more` being the turns behind it.
pub head_turn : Bytes → (Bytes → Socket → HttpRead Headed) → Received × Socket → HttpRead Headed
unfolding found_or
head_turn buffer more (eintr, s) = more buffer s
head_turn buffer more (error, s) = failed bad_request
head_turn buffer more (received [], s) = failed bad_request
head_turn buffer more (received (c ∷ cs), s) =
    found_or (find_header_end (buffer ++ c ∷ cs)) (buffer ++ c ∷ cs) s (more (buffer ++ c ∷ cs) s)

-- `while (header_end_index < 0)`, on fuel, without which the reader never fails.
unfoldable pub read_head : ℕ → Bytes → Socket → HttpRead Headed
unfolding head_turn
read_head zero buffer s = failed internal_error
read_head (suc fuel) buffer s =
    if leb max_header_size (length buffer)
    then failed bad_request
    else head_turn buffer (λ b t. read_head fuel b t)
        (recv (max_header_size + max_body_size - length buffer) s)

-- One turn of the second loop.
pub body_turn : Bytes → (Bytes → Socket → HttpRead Bytes) → Received × Socket → HttpRead Bytes
body_turn body more (eintr, s) = more body s
body_turn body more (error, s) = failed bad_request
body_turn body more (received [], s) = failed bad_request
body_turn body more (received (c ∷ cs), s) = more (body ++ c ∷ cs) s

-- `while (copied_bytes < body_length)`
unfoldable pub read_body : ℕ → ℕ → Bytes → Socket → HttpRead Bytes
unfolding body_turn
read_body zero body_length body s = failed internal_error
read_body (suc fuel) body_length body s =
    if leb body_length (length body)
    then http_ok body
    else body_turn body (λ b t. read_body fuel body_length b t) (recv (body_length - length body) s)

-- Each turn takes an event or leaves less of one, and then is the last but one.
abbrev pub turns : Socket → ℕ
turns s = 2 + length s

-- Behind the first loop.
unfoldable pub read_rest : Strtoull → Headed → HttpRead HttpRequest
unfolding read_body
read_rest strtoull ((buffer, i), s) =
    if ltb max_header_size (i + 4)
    then failed bad_request
    else parse_head strtoull buffer >>= λ head.
        read_body (turns s) head.body_length (take head.body_length (drop (i + 4) buffer)) s
        >>= λ body. http_ok (request_of head body)

unfoldable pub http_read_request : Strtoull → Socket → HttpRead HttpRequest
unfolding read_head read_rest
http_read_request strtoull s = read_head (turns s) [] s >>= λ headed. read_rest strtoull headed
