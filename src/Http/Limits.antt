-- ===== src/Http/Limits.antt =====
-- src/http.c: every request is read or refused, within the limits of include/http.h.
use threaded_db_api_server.Prelude.{
  ℕ, zero, suc, ◌+◌, ◌-◌, ◌≤◌, ◌<◌, ◌≡◌, ◌⊎◌, inl, inr, true, false, Bool-cases, Option, none, some,
  [], ◌∷◌, ◌++◌, length, length-append, length-take, take, drop, ltb, leb, arith,
}
use threaded_db_api_server.Prelude.Bytes.{Bytes}
use threaded_db_api_server.Http.Head.{
  HttpRead, HttpRequest, Strtoull, find_header_end, max_header_size, max_body_size,
}
use threaded_db_api_server.Http.Head.Limits.{
  Answered, was_read, was_bad, Answered-then, Answered-if, Fits, parse_head-Answered,
}
use threaded_db_api_server.Http.{
  arrives, interrupted, fails, Socket, Received, received, eintr, error, recv, Headed, found_or,
  body_turn, head_turn, read_head, read_body, read_rest, turns, http_read_request,
}
use threaded_db_api_server.Http.Stream.Calls.{Enough, Enough-next, none_left, le_false}

-- One call of `recv` uses up an event, fills the buffer, or is the last.
data Moves (n : ℕ) (s : Socket) : Received × Socket → Type 0 where
  at_end : {t : Socket} → Moves n s (received [], t)
  broken : {t : Socket} → Moves n s (error, t)
  again : {t : Socket} → length t < length s → Moves n s (eintr, t)
  onward :
      {c : ℕ} {cs : Bytes} {t : Socket}
      → (length t < length s) ⊎ (length (c ∷ cs) ≡ n)
      → length (c ∷ cs) ≤ n
      → Moves n s (received (c ∷ cs), t)

zero_leb : (n : ℕ) → leb 0 n ≡ true
zero_leb n = ground arith

recv-Moves : (n : ℕ) (s : Socket) → 0 < n → Moves n s (recv n s)
unfolding recv
recv-Moves n [] k = at_end
recv-Moves n (interrupted ∷ s) k = again (omega arith)
recv-Moves n (fails ∷ s) k = broken
recv-Moves n (arrives [] ∷ s) k = rw (zero_leb n) at_end
recv-Moves zero (arrives (c ∷ cs) ∷ s) k = absurd (omega arith)
recv-Moves (suc n) (arrives (c ∷ cs) ∷ s) k = go (Bool-cases (leb (length (c ∷ cs)) (suc n)))
  where
    go :
        (leb (length (c ∷ cs)) (suc n) ≡ true) ⊎ (leb (length (c ∷ cs)) (suc n) ≡ false)
        → Moves (suc n) (arrives (c ∷ cs) ∷ s) (recv (suc n) (arrives (c ∷ cs) ∷ s))
    go (inl e) = rw e (onward (inl (omega arith)) (ground arith))
    go (inr e) = rw e (
        onward (inr (omega (arith, length-take n cs, le_false _ _ e)))
          (omega (arith, length-take n cs)))

-- The second loop: a body of the length that was asked for.
IsBody : ℕ → Bytes → Type 0
IsBody n body = length body ≡ n

read_body_lem :
    (fuel n : ℕ) (body : Bytes) (s : Socket)
    → length body ≤ n
    → Enough n fuel (length body) s
    → Answered (IsBody n) (read_body fuel n body s)
unfolding read_body IsBody
read_body_lem zero n body s h k = absurd (none_left _ _ s k)
read_body_lem (suc fuel) n body s h k =
    Answered-if (leb n (length body)) (λ full. was_read (ground (arith, full, h)))
      λ room.
        turn (le_false _ _ room) (recv-Moves _ s (let m = le_false _ _ room in omega arith))
          (read_body_lem fuel n)
  where
    turn :
        length body < n
        → {r : Received × Socket} → Moves (n - length body) s r
        → ((b : Bytes) (t : Socket)
            → length b ≤ n
            → Enough n fuel (length b) t
            → Answered (IsBody n) (read_body fuel n b t))
        → Answered (IsBody n) (body_turn body (λ b t. read_body fuel n b t) r)
    turn m at_end ih = was_bad
    turn m broken ih = was_bad
    turn m (again less) ih = ih body _ h (Enough-next n fuel _ _ s _ m k (inl less))
    turn m (onward {c} {cs} {t} (inl less) fits) ih =
        ih (body ++ c ∷ cs) t (omega (arith, length-append body (c ∷ cs)))
          (Enough-next n fuel _ _ s t m k (inl less))
    turn m (onward {c} {cs} {t} (inr full) fits) ih =
        ih (body ++ c ∷ cs) t (omega (arith, length-append body (c ∷ cs)))
          (Enough-next n fuel _ _ s t m k (inr (omega (arith, length-append body (c ∷ cs)))))

-- The first loop.
abbrev Any : Headed → Type 0
Any headed = Unit

found_lem :
    (o : Option ℕ) (buffer : Bytes) (s : Socket) (more : HttpRead Headed)
    → Answered Any more
    → Answered Any (found_or o buffer s more)
unfolding found_or
found_lem none buffer s more h = h
found_lem (some i) buffer s more h = was_read tt

read_head_lem :
    (fuel : ℕ) (buffer : Bytes) (s : Socket)
    → Enough max_header_size fuel (length buffer) s
    → Answered Any (read_head fuel buffer s)
unfolding read_head
read_head_lem zero buffer s k = absurd (none_left _ _ s k)
read_head_lem (suc fuel) buffer s k =
    Answered-if (leb max_header_size (length buffer)) (λ full. was_bad)
      λ room.
        turn (le_false _ _ room)
          (recv-Moves _ s (let m = le_false max_header_size (length buffer) room in omega arith))
          (read_head_lem fuel)
  where
    next :
        length buffer < max_header_size
        → (c : ℕ) (cs : Bytes) (t : Socket)
        → (length t < length s)
          ⊎ (length (c ∷ cs) ≡ max_header_size + max_body_size - length buffer)
        → Enough max_header_size fuel (length (buffer ++ c ∷ cs)) t
    next m c cs t (inl less) = Enough-next max_header_size fuel _ _ s t m k (inl less)
    next m c cs t (inr full) =
        Enough-next max_header_size fuel _ _ s t m k
          (inr (omega (arith, length-append buffer (c ∷ cs))))

    turn :
        length buffer < max_header_size
        → {r : Received × Socket} → Moves (max_header_size + max_body_size - length buffer) s r
        → ((b : Bytes) (t : Socket)
            → Enough max_header_size fuel (length b) t
            → Answered Any (read_head fuel b t))
        → Answered Any (head_turn buffer (λ b t. read_head fuel b t) r)
    turn m at_end ih = was_bad
    turn m broken ih = was_bad
    turn m (again less) ih = ih buffer _ (Enough-next max_header_size fuel _ _ s _ m k (inl less))
    turn m (onward {c} {cs} {t} less fits) ih =
        found_lem (find_header_end (buffer ++ c ∷ cs)) _ t _
          (ih (buffer ++ c ∷ cs) t (next m c cs t less))

-- A request within the limits of `HttpRequest` and HTTP_MAX_BODY_SIZE.
pub record WithinLimits (req : HttpRequest) : Type 0 where
  pub words_fit : Fits (req.method, req.path)
  pub body_fits : length req.body ≤ max_body_size

rest-Answered :
    (strtoull : Strtoull) (headed : Headed) → Answered WithinLimits (read_rest strtoull headed)
unfolding read_rest IsBody Enough
rest-Answered strtoull ((buffer, i), s) =
    Answered-if (ltb max_header_size (i + 4)) (λ _. was_bad)
      λ _. Answered-then (parse_head-Answered strtoull buffer) λ head within.
        Answered-then
          (read_body_lem (turns s) head.body_length (take head.body_length (drop (i + 4) buffer)) s
            (omega (arith, length-take head.body_length (drop (i + 4) buffer))) (inl (omega arith)))
          λ body full. was_read (record {
            words_fit = within.words_fit;
            body_fits = omega (arith, full, within.body_fits);
          })

-- On every socket, also one whose calls fail, `http_read_request` ends: it refuses the client as
-- HTTP_READ_BAD_REQUEST or HTTP_READ_PAYLOAD_TOO_LARGE, or reads a request whose method and path
-- are not empty and fit their arrays with the NUL, and whose body is within HTTP_MAX_BODY_SIZE
-- (`WithinLimits`).
pub http_read_request-Answered :
    (strtoull : Strtoull) (s : Socket) → Answered WithinLimits (http_read_request strtoull s)
unfolding http_read_request Enough
http_read_request-Answered strtoull s =
    Answered-then (read_head_lem (turns s) [] s (inl (omega arith)))
      λ headed _. rest-Answered strtoull headed
