-- ===== src/Http/Stream/Body.antt =====
-- src/http.c: the body of a request off a stream.
use threaded_db_api_server.Prelude.{
  ℕ, zero, suc, ◌+◌, ◌-◌, ◌≤◌, ◌<◌, ◌≡◌, refl, ap, sym, ◌∙◌, ◌⊎◌, inl, inr, true, false, Bool-cases,
  [], ◌∷◌, ◌++◌, append-nil, append_assoc, length, length-append, length-take, take, leb, min,
  arith,
}
use threaded_db_api_server.Prelude.Bytes.{Bytes}
use threaded_db_api_server.Http.Head.{http_ok, failed, bad_request}
use threaded_db_api_server.Http.{Socket, Received, read_body, body_turn, turns}
use threaded_db_api_server.Http.Stream.{stream, Flows, whole_body}
use threaded_db_api_server.Http.Stream.Calls.{
  Call, ended, retried, got, recv-Call, le_false, Enough, Enough-next, none_left,
}

pub take_exact : (n : ℕ) (xs ys : Bytes) → n ≡ length xs → take n (xs ++ ys) ≡ xs
take_exact zero [] ys e = refl
take_exact zero (x ∷ xs) ys e = absurd (omega (arith, e))
take_exact (suc n) [] ys e = absurd (omega (arith, e))
take_exact (suc n) (x ∷ xs) ys e = ap (λ r. x ∷ r) (take_exact n xs ys (omega (arith, e)))

pub take-take-append : (n : ℕ) (xs ys : Bytes) → take n (take n xs ++ ys) ≡ take n (xs ++ ys)
take-take-append zero xs ys = refl
take-take-append (suc n) [] ys = refl
take-take-append (suc n) (x ∷ xs) ys = ap (λ r. x ∷ r) (take-take-append n xs ys)

whole_body-short :
    (n : ℕ) (bytes : Bytes) → length bytes < n → whole_body n bytes ≡ failed bad_request
whole_body-short n bytes h = ground arith

pub whole_body-ok :
    (n : ℕ) (bytes body : Bytes)
    → n ≤ length bytes
    → take n bytes ≡ body
    → whole_body n bytes ≡ http_ok body
whole_body-ok n bytes body h e = ground (arith, e)

-- The loop from the copied bytes on.
Copies : ℕ → ℕ → Bytes → Socket → Type 0
Copies fuel n body s =
    Flows s
    → length body ≤ n
    → Enough n fuel (length body) s
    → read_body fuel n body s ≡ whole_body n (body ++ stream s)

turn_lem :
    (fuel n : ℕ) (body : Bytes) (s : Socket) {r : Received × Socket}
    → length body < n
    → Enough n (suc fuel) (length body) s
    → ((body' : Bytes) (t : Socket) → Copies fuel n body' t)
    → Call (n - length body) s r
    → body_turn body (λ b t. read_body fuel n b t) r ≡ whole_body n (body ++ stream s)
unfolding body_turn Copies
turn_lem fuel n body s m k ih (ended e) =
    sym (whole_body-short n (body ++ stream s) (rw (e, append-nil body) m))
turn_lem fuel n body s m k ih (retried {t} f same less) =
    ih body t f (omega arith) (Enough-next n fuel _ _ s t m k (inl less))
    ∙ ap (λ b. whole_body n (body ++ b)) same
turn_lem fuel n body s m k ih (got {c} {cs} {t} f same fits less) =
    ih (body ++ c ∷ cs) t f (omega (arith, length-append body (c ∷ cs)))
      (Enough-next n fuel _ _ s t m k (filled less))
    ∙ ap (whole_body n) (append_assoc body (c ∷ cs) (stream t) ∙ ap (λ b. body ++ b) same)
  where
    filled :
        (length t < length s) ⊎ (length (c ∷ cs) ≡ n - length body)
        → (length t < length s) ⊎ (n ≤ length (body ++ c ∷ cs))
    filled (inl less) = inl less
    filled (inr full) = inr (omega (arith, length-append body (c ∷ cs)))

read_body_lem : (fuel n : ℕ) (body : Bytes) (s : Socket) → Copies fuel n body s
unfolding read_body Copies
read_body_lem zero n body s = λ f h k. absurd (none_left _ _ s k)
read_body_lem (suc fuel) n body s =
    go (Bool-cases (leb n (length body))) (λ b t. read_body_lem fuel n b t)
  where
    go :
        (leb n (length body) ≡ true) ⊎ (leb n (length body) ≡ false)
        → ((b : Bytes) (t : Socket) → Copies fuel n b t)
        → Copies (suc fuel) n body s
    go (inl full) ih = λ f h k.
        let e : n ≡ length body = ground (arith, full, h) in
        rw full (
          sym (
            whole_body-ok n (body ++ stream s) body
              (omega (arith, e, length-append body (stream s))) (take_exact n body (stream s) e)))
    go (inr room) ih = λ f h k.
        let m = le_false n (length body) room in
        rw room (turn_lem fuel n body s m k ih (recv-Call _ s (omega arith) f))

leb_same : (n k m : ℕ) → leb n (min n k + m) ≡ leb n (k + m)
leb_same n k m = ground arith

whole_body-take : (n : ℕ) (xs ys : Bytes) → whole_body n (take n xs ++ ys) ≡ whole_body n (xs ++ ys)
whole_body-take n xs ys =
    rw
      (
        length-append (take n xs) ys,
        length-take n xs,
        leb_same n (length xs) (length ys),
        sym (length-append xs ys),
        take-take-append n xs ys,
      )
      refl

-- Bytes that came with the head, and the stream behind them.
pub read_body-whole_body :
    (n : ℕ) (bytes : Bytes) (s : Socket)
    → Flows s
    → read_body (turns s) n (take n bytes) s ≡ whole_body n (bytes ++ stream s)
unfolding Copies Enough
read_body-whole_body n bytes s f =
    read_body_lem (turns s) n (take n bytes) s f (omega (arith, length-take n bytes))
      (inl (omega arith))
    ∙ whole_body-take n bytes (stream s)
