-- ===== src/Http/Stream.antt =====
-- src/http.c: a request read off a stream of bytes, in whatever pieces it arrives.
pub mod Calls
pub mod Body
pub mod Whole
pub mod Post
use threaded_db_api_server.Prelude.{
  ℕ, ◌+◌, ◌<◌, Option, none, some, [], ◌∷◌, ◌++◌, length, take, drop, ltb, leb, if◌then◌else◌,
}
use threaded_db_api_server.Prelude.Bytes.{Bytes}
use threaded_db_api_server.Http.Head.{
  HttpRead, http_ok, failed, bad_request, ◌>>=◌, HttpRequest, Strtoull, find_header_end, parse_head,
  request_of, max_header_size,
}
use threaded_db_api_server.Http.{arrives, interrupted, fails, Socket}

-- The bytes that arrive at a socket.
unfoldable pub stream : Socket → Bytes
stream [] = []
stream (arrives bytes ∷ s) = bytes ++ stream s
stream (interrupted ∷ s) = stream s
stream (fails ∷ s) = stream s

-- No call of `recv` fails, and one that returns 0 is at the end.
abbrev pub Flows : Socket → Type 0
Flows [] = Unit
Flows (arrives bytes ∷ s) = (0 < length bytes) × Flows s
Flows (interrupted ∷ s) = Flows s
Flows (fails ∷ s) = ⊥

-- The body of a request whose bytes are known.
abbrev pub whole_body : ℕ → Bytes → HttpRead Bytes
whole_body n bytes = if leb n (length bytes) then http_ok (take n bytes) else failed bad_request

pub whole_from : Strtoull → Bytes → Option ℕ → HttpRead HttpRequest
whole_from strtoull bytes none = failed bad_request
whole_from strtoull bytes (some i) =
    if ltb max_header_size (i + 4)
    then failed bad_request
    else parse_head strtoull bytes >>= λ head.
        whole_body head.body_length (drop (i + 4) bytes) >>= λ body. http_ok (request_of head body)

-- What a request of these bytes is read as: the head up to the blank line, and the body behind it.
unfoldable pub read_whole : Strtoull → Bytes → HttpRead HttpRequest
unfolding whole_from
read_whole strtoull bytes = whole_from strtoull bytes (find_header_end bytes)
