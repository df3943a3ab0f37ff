-- ===== src/Http/Stream/Calls.antt =====
-- src/http.c: one call of `recv` on a stream, and the two loops over it.
use threaded_db_api_server.Prelude.{
  ℕ, zero, suc, ◌+◌, ◌-◌, ◌≤◌, ◌<◌, ◌≡◌, refl, ap, sym, ◌∙◌, ◌⊎◌, inl, inr, true, false, Bool-cases,
  none, some, Option-cases, [], ◌∷◌, ◌++◌, append-nil, append_assoc, length, length-append,
  length-take, length-drop, take, drop, take-append-drop, leb, arith, subst,
}
use threaded_db_api_server.Prelude.Bytes.{Bytes}
use threaded_db_api_server.Http.Head.{
  HttpRead, http_ok, failed, bad_request, find_header_end, max_header_size, max_body_size,
}
use threaded_db_api_server.Http.Head.Prefix.{find-within}
use threaded_db_api_server.Http.{
  arrives, interrupted, fails, Socket, Received, received, eintr, recv, Headed, read_head,
  head_turn, turns,
}
use threaded_db_api_server.Http.Stream.{stream, Flows}

-- What a call returns on a stream.
pub data Call (n : ℕ) (s : Socket) : Received × Socket → Type 0 where
  ended : {t : Socket} → stream s ≡ [] → Call n s (received [], t)
  retried : {t : Socket} → Flows t → stream t ≡ stream s → length t < length s → Call n s (eintr, t)
  got :
      {c : ℕ} {cs : Bytes} {t : Socket}
      → Flows t
      → (c ∷ cs) ++ stream t ≡ stream s
      → length (c ∷ cs) ≤ n
      → (length t < length s) ⊎ (length (c ∷ cs) ≡ n)
      → Call n s (received (c ∷ cs), t)

pub le_false : (a b : ℕ) → leb a b ≡ false → b < a
le_false a b e = ground arith

pub recv-Call : (n : ℕ) (s : Socket) → 0 < n → Flows s → Call n s (recv n s)
unfolding recv stream
recv-Call n [] k f = ended refl
recv-Call n (interrupted ∷ s) k f = retried f refl (omega arith)
recv-Call n (fails ∷ s) k f = absurd f
recv-Call n (arrives [] ∷ s) k f = absurd (omega (arith, f.0))
recv-Call zero (arrives (c ∷ cs) ∷ s) k f = absurd (omega arith)
recv-Call (suc n) (arrives (c ∷ cs) ∷ s) k f = go (Bool-cases (leb (length (c ∷ cs)) (suc n)))
  where
    go :
        (leb (length (c ∷ cs)) (suc n) ≡ true) ⊎ (leb (length (c ∷ cs)) (suc n) ≡ false)
        → Call (suc n) (arrives (c ∷ cs) ∷ s) (recv (suc n) (arrives (c ∷ cs) ∷ s))
    go (inl e) = rw e (got f.1 refl (ground arith) (inl (omega arith)))
    go (inr e) = rw e (
        got (omega (arith, length-drop n cs, le_false _ _ e), f.1)
          (ap (λ r. c ∷ r)
            (sym (append_assoc (take n cs) (drop n cs) (stream s))
              ∙ ap (λ r. r ++ stream s) (take-append-drop n cs)))
          (omega (arith, length-take n cs)) (inr (omega (arith, length-take n cs, le_false _ _ e))))

-- What the first loop makes of the bytes.
pub data HeadRead (bytes : Bytes) : HttpRead Headed → Type 0 where
  missing :
      ((i : ℕ) → find_header_end bytes ≡ some i → max_header_size < i + 4)
      → HeadRead bytes (failed bad_request)
  found :
      {buffer : Bytes} {i : ℕ} {t : Socket}
      → Flows t
      → buffer ++ stream t ≡ bytes
      → find_header_end buffer ≡ some i
      → HeadRead bytes (http_ok ((buffer, i), t))

-- Fuel for a loop that ends when the buffer has a length.
unfoldable pub Enough : ℕ → ℕ → ℕ → Socket → Type 0
Enough limit fuel len s = (2 + length s ≤ fuel) ⊎ ((limit ≤ len) × (1 ≤ fuel))

-- The next turn has enough, if an event was used up or the buffer is full.
pub Enough-next :
    (limit fuel len len' : ℕ) (s t : Socket)
    → len < limit
    → Enough limit (suc fuel) len s
    → (length t < length s) ⊎ (limit ≤ len')
    → Enough limit fuel len' t
unfolding Enough
Enough-next limit fuel len len' s t k (inl e) (inl m) = inl (omega arith)
Enough-next limit fuel len len' [] t k (inl e) (inr m) = inr (m, omega arith)
Enough-next limit fuel len len' (event ∷ s) t k (inl e) (inr m) = inr (m, omega arith)
Enough-next limit fuel len len' s t k (inr e) m = absurd (omega (arith, e.0))

not_found : (b : Bytes) (i : ℕ) → find_header_end b ≡ none → find_header_end b ≡ some i → ⊥
not_found b i e f = cc (e, f)

big : (i len : ℕ) → max_header_size ≤ len → (i + 4 ≤ len → ⊥) → max_header_size < i + 4
big i len h k = elim (Bool-cases (leb (i + 4) len)) [
  | inl e ↦ absurd (k (ground arith))
  | inr e ↦ ground arith
]

pub none_left : (limit len : ℕ) (s : Socket) → Enough limit 0 len s → ⊥
unfolding Enough
none_left limit len s (inl e) = omega arith
none_left limit len s (inr e) = omega (arith, e.1)

-- The loop from a buffer on.
Reads : ℕ → Bytes → Socket → Type 0
Reads fuel buffer s =
    Flows s
    → find_header_end buffer ≡ none
    → Enough max_header_size fuel (length buffer) s
    → HeadRead (buffer ++ stream s) (read_head fuel buffer s)

turn_lem :
    (fuel : ℕ) (buffer : Bytes) (s : Socket) {r : Received × Socket}
    → find_header_end buffer ≡ none
    → length buffer < max_header_size
    → Enough max_header_size (suc fuel) (length buffer) s
    → ((buffer' : Bytes) (t : Socket) → Reads fuel buffer' t)
    → Call (max_header_size + max_body_size - length buffer) s r
    → HeadRead (buffer ++ stream s) (head_turn buffer (λ b t. read_head fuel b t) r)
unfolding head_turn Reads
turn_lem fuel buffer s e m k ih (ended n) =
    missing λ i later. absurd (not_found buffer i e (rw (sym (append-nil buffer), sym n) later))
turn_lem fuel buffer s e m k ih (retried {t} f same less) =
    subst (λ b. HeadRead (buffer ++ b) (read_head fuel buffer t)) same
      (ih buffer t f e (Enough-next max_header_size fuel _ _ s t m k (inl less)))
turn_lem fuel buffer s e m k ih (got {c} {cs} {t} f same fits less) =
    go (Option-cases (find_header_end (buffer ++ c ∷ cs)))
  where
    all : (buffer ++ c ∷ cs) ++ stream t ≡ buffer ++ stream s
    all = append_assoc buffer (c ∷ cs) (stream t) ∙ ap (λ b. buffer ++ b) same

    filled :
        (length t < length s) ⊎ (length (c ∷ cs) ≡ max_header_size + max_body_size - length buffer)
        → (length t < length s) ⊎ (max_header_size ≤ length (buffer ++ c ∷ cs))
    filled (inl less) = inl less
    filled (inr full) = inr (omega (arith, length-append buffer (c ∷ cs)))

    go :
        (find_header_end (buffer ++ c ∷ cs) ≡ none)
          ⊎ ((i : ℕ) × (find_header_end (buffer ++ c ∷ cs) ≡ some i))
        → HeadRead
            (buffer ++ stream s)
            (head_turn buffer (λ b t. read_head fuel b t) (received (c ∷ cs), t))
    go (inl none_yet) = rw none_yet (
        subst (λ b. HeadRead b (read_head fuel (buffer ++ c ∷ cs) t)) all
          (ih (buffer ++ c ∷ cs) t f none_yet
            (Enough-next max_header_size fuel _ _ s t m k (filled less))))
    go (inr (i, here)) = rw here (found f all here)

read_head_lem : (fuel : ℕ) (buffer : Bytes) (s : Socket) → Reads fuel buffer s
unfolding read_head Reads
read_head_lem zero buffer s = λ f e k. absurd (none_left _ _ s k)
read_head_lem (suc fuel) buffer s =
    go (Bool-cases (leb max_header_size (length buffer))) (λ b t. read_head_lem fuel b t)
  where
    go :
        (leb max_header_size (length buffer) ≡ true) ⊎ (leb max_header_size (length buffer) ≡ false)
        → ((b : Bytes) (t : Socket) → Reads fuel b t)
        → Reads (suc fuel) buffer s
    go (inl full) ih = λ f e k. rw full (
        missing λ i later.
          big i (length buffer) (ground arith)
            (λ m. not_found buffer i e (find-within buffer (stream s) i later m)))
    go (inr room) ih = λ f e k.
        let m = le_false max_header_size (length buffer) room in
        rw room (turn_lem fuel buffer s e m k ih (recv-Call _ s (omega arith) f))

-- The first loop on a stream: the blank line is found at the same place as in all the bytes, with
-- the other bytes left to come, or it does not end within the limit.
pub read_head-HeadRead : (s : Socket) → Flows s → HeadRead (stream s) (read_head (turns s) [] s)
unfolding Reads Enough find_header_end
read_head-HeadRead s f = read_head_lem (turns s) [] s f refl (inl (omega arith))
