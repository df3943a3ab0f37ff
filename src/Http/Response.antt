-- ===== src/Http/Response.antt =====
-- src/http.c: a response written to a socket.
--
-- A socket is what the calls of `send` on it will do, in their order; where the list ends, it
-- refuses. What is written is returned with the result.
use threaded_db_api_server.Prelude.{
  ℕ, zero, suc, ◌≤◌, ◌<◌, ◌≡◌, refl, ap, sym, ◌∙◌, ◌↔◌, ◌⊎◌, inl, inr, Bool, true, false,
  Bool-cases, List, [], ◌∷◌, ◌++◌, append-nil, append_assoc, length, length-append, take, drop,
  take-append-drop, leb, ◌==◌, if◌then◌else◌, arith,
}
use threaded_db_api_server.Prelude.Bytes.{Bytes, codes}
use threaded_db_api_server.Ids.{print_u64}
use threaded_db_api_server.Ids.Digits.{length-print_u64}
use threaded_db_api_server.DbApi.Body.{make_error_json}

-- `send` takes so many bytes at most, or is interrupted, or fails.
pub data Sending : Type 0 where
  takes : ℕ → Sending
  retries refuses : Sending

pub record Written : Type 0 where
  pub done : Bool
  pub bytes : Bytes
  pub socket : List Sending

-- `sent += written`
abbrev also : Bytes → Written → Written
also sent w = record w { bytes = sent ++ w.bytes }

-- `while (sent < len)`, `buf` being what is left to send
unfoldable pub write_all : List Sending → Bytes → Written
write_all socket [] = record { done = true; bytes = []; socket = socket }
write_all [] (c ∷ cs) = record { done = false; bytes = []; socket = [] }
write_all (refuses ∷ socket) (c ∷ cs) = record { done = false; bytes = []; socket = socket }
write_all (retries ∷ socket) (c ∷ cs) = write_all socket (c ∷ cs)
write_all (takes n ∷ socket) (c ∷ cs) =
    let more = write_all socket (drop n (c ∷ cs)) in
    if n == 0
    then record { done = false; bytes = []; socket = socket }
    else also (take n (c ∷ cs)) more

unfoldable pub http_status_text : ℕ → Bytes
http_status_text status =
    if status == 200
    then codes "OK"
    else if status == 400
    then codes "Bad Request"
    else if status == 404
    then codes "Not Found"
    else if status == 405
    then codes "Method Not Allowed"
    else if status == 413
    then codes "Payload Too Large"
    else if status == 503
    then codes "Service Unavailable"
    else codes "Internal Server Error"

-- `snprintf` of the header; the status is not negative.
unfoldable pub response_header : ℕ → Bytes → Bytes
unfolding http_status_text
response_header status body =
    codes "HTTP/1.1 "
    ++ (print_u64 status
        ++ (codes " "
            ++ (http_status_text status
                ++ (codes "\r\nContent-Type: application/json\r\nContent-Length: "
                    ++ (print_u64 (length body) ++ codes "\r\nConnection: close\r\n\r\n")))))

-- The body behind a header that was written.
write_body : Written → Bytes → Written
unfolding write_all
write_body w body = if w.done then also w.bytes (write_all w.socket body) else w

unfoldable pub http_send_json_response : List Sending → ℕ → Bytes → Written
unfolding write_body response_header
http_send_json_response socket status body =
    let header = response_header status body in
    if leb 256 (length header)
    then record { done = false; bytes = []; socket = socket }
    else write_body (write_all socket header) body

unfoldable pub http_send_error_response : List Sending → ℕ → Bytes → Bytes → Written
unfolding http_send_json_response
http_send_error_response socket status error_code message =
    http_send_json_response socket status (make_error_json error_code message)

-- A part from the front is written, and it is all exactly when the call succeeds.
IsPart : Written → Bytes → Type 0
IsPart w text = (rest : Bytes) × (w.bytes ++ rest ≡ text) × ((w.done ≡ true) ↔ (rest ≡ []))

suc_ne : (n : ℕ) → (suc n == 0) ≡ false
suc_ne n = ground arith

write_all-IsPart : (socket : List Sending) (buf : Bytes) → IsPart (write_all socket buf) buf
unfolding write_all IsPart
write_all-IsPart socket [] = ([], refl, ((λ e. refl), (λ e. refl)))
write_all-IsPart [] (c ∷ cs) = (c ∷ cs, refl, ((λ e. cc e), (λ e. cc e)))
write_all-IsPart (refuses ∷ socket) (c ∷ cs) = (c ∷ cs, refl, ((λ e. cc e), (λ e. cc e)))
write_all-IsPart (retries ∷ socket) (c ∷ cs) = write_all-IsPart socket (c ∷ cs)
write_all-IsPart (takes zero ∷ socket) (c ∷ cs) = (c ∷ cs, refl, ((λ e. cc e), (λ e. cc e)))
write_all-IsPart (takes (suc n) ∷ socket) (c ∷ cs) =
    let (rest, same, iff) = write_all-IsPart socket (drop n cs) in
    let sent : Bytes = take (suc n) (c ∷ cs) in
    let all =
      append_assoc sent _ rest ∙ ap (λ r. sent ++ r) same ∙ take-append-drop (suc n) (c ∷ cs) in
    rw (suc_ne n) (rest, all, iff)

length-http_status_text : (status : ℕ) → length (http_status_text status) ≤ 21
unfolding http_status_text
length-http_status_text status = short_if (status == 200) _ _ (omega arith) (
    short_if (status == 400) _ _ (omega arith) (
      short_if (status == 404) _ _ (omega arith) (
        short_if (status == 405) _ _ (omega arith) (
          short_if (status == 413) _ _ (omega arith)
            (short_if (status == 503) _ _ (omega arith) (omega arith))))))
  where
    short_if :
        (b : Bool) (x y : Bytes)
        → length x ≤ 21
        → length y ≤ 21
        → length (if◌then◌else◌ {A = Bytes} b x y) ≤ 21
    short_if true x y hx hy = hx
    short_if false x y hx hy = hy

length-response_header : (status : ℕ) (body : Bytes) → length (response_header status body) < 256
unfolding response_header
length-response_header status body =
    let last : Bytes = print_u64 (length body) ++ codes "\r\nConnection: close\r\n\r\n" in
    let kind : Bytes = codes "\r\nContent-Type: application/json\r\nContent-Length: " ++ last in
    omega (
      arith,
      length-append (print_u64 status) (codes " " ++ (http_status_text status ++ kind)),
      length-append (http_status_text status) kind,
      length-append (print_u64 (length body)) (codes "\r\nConnection: close\r\n\r\n"),
      length-print_u64 status,
      length-print_u64 (length body),
      length-http_status_text status,
    )

too_long : (status : ℕ) (body : Bytes) → leb 256 (length (response_header status body)) ≡ false
too_long status body = let h = length-response_header status body in ground (arith, h)

front_nil : (xs ys : Bytes) → xs ++ ys ≡ [] → xs ≡ []
front_nil [] ys e = refl
front_nil (x ∷ xs) ys e = absurd (cc e)

write_body-IsPart :
    (w : Written) (header body : Bytes)
    → IsPart w header
    → IsPart (write_body w body) (header ++ body)
unfolding write_body IsPart
write_body-IsPart w header body (rest, same, iff) = go (Bool-cases w.done)
  where
    go : (w.done ≡ true) ⊎ (w.done ≡ false) → IsPart (write_body w body) (header ++ body)
    go (inl e) =
        let (left, sent, all) = write_all-IsPart w.socket body in
        let whole : w.bytes ≡ header =
          sym (append-nil w.bytes) ∙ ap (λ r. w.bytes ++ r) (sym (iff.0 e)) ∙ same in
        rw e (
          left,
          append_assoc w.bytes _ left
              ∙ ap (λ r. r ++ ((write_all w.socket body).bytes ++ left)) whole
              ∙ ap (λ r. header ++ r) sent,
          all,
        )
    go (inr e) = rw e (
      rest ++ body,
      sym (append_assoc w.bytes rest body) ∙ ap (λ r. r ++ body) same,
      ((λ t. absurd (cc t)), (λ z. absurd (cc (e, iff.1 (front_nil rest body z))))),
    )

-- The text of a response: the header and the body.
abbrev pub response_text : ℕ → Bytes → Bytes
response_text status body = response_header status body ++ body

-- Whatever the calls of `send` do, what is written of a response is a part of its text from the
-- front on, and it is the whole text exactly when the call succeeds.
pub http_send_json_response-part :
    (socket : List Sending) (status : ℕ) (body : Bytes)
    → (rest : Bytes) × ((http_send_json_response socket status body).bytes ++ rest
        ≡ response_text status body)
      × (((http_send_json_response socket status body).done ≡ true) ↔ (rest ≡ []))
unfolding http_send_json_response IsPart
http_send_json_response-part socket status body = rw (too_long status body) (
    write_body-IsPart (write_all socket (response_header status body)) (response_header status body)
      body (write_all-IsPart socket (response_header status body)))
