-- ===== src/Http/Head/Same.antt =====
-- src/http.c: what the head says does not depend on what stands behind its blank line.
use threaded_db_api_server.Prelude.{
  ℕ, zero, suc, ◌+◌, ◌≤◌, ◌<◌, ◌≡◌, refl, ap, sym, ◌∙◌, ◌⊎◌, inl, inr, Bool, true, false, ◌&&◌,
  Bool-cases, Option, none, some, [], ◌∷◌, ◌++◌, length, length-append, ◌==◌, if◌then◌else◌, arith,
}
use threaded_db_api_server.Prelude.Bytes.{Bytes, codes, str_eq}
use threaded_db_api_server.Http.Head.{
  HttpRead, http_ok, failed, ◌>>=◌, Strtoull, at_crlf, split_line, header_loop, headers_from,
  header_line, strip_any_case, parse_content_length, head_length, head_from, checked_length,
  parse_request_line, parse_head, head_of,
}
use threaded_db_api_server.Http.Head.Prefix.{blank}

-- The first line of a head: there is none, it stands before the last, or it is the last.
data Cut (h : Bytes) : Type 0 where
  stuck : ((z : Bytes) → split_line (h ++ blank z) ≡ none) → Cut h
  inner :
      (line h' : Bytes)
      → length h' < length h
      → ((z : Bytes) → split_line (h ++ blank z) ≡ some (line, h' ++ blank z))
      → Cut h
  final :
      (line : Bytes)
      → ((z : Bytes) → split_line (h ++ blank z) ≡ some (line, b'\r' ∷ b'\n' ∷ z))
      → Cut h

-- A byte that neither ends the text nor starts "\r\n" goes to the line.
pub split-later :
    (c : ℕ) (cs : Bytes) (line rest : Bytes)
    → (c == 0) ≡ false
    → at_crlf (c ∷ cs) ≡ false
    → split_line cs ≡ some (line, rest)
    → split_line (c ∷ cs) ≡ some (c ∷ line, rest)
unfolding split_line
split-later c cs line rest n t e = rw (n, t, e) refl

split-none :
    (c : ℕ) (cs : Bytes)
    → at_crlf (c ∷ cs) ≡ false
    → split_line cs ≡ none
    → split_line (c ∷ cs) ≡ none
unfolding split_line
split-none c cs t e = ground (arith, t, e)

longer :
    (c : ℕ) (h : Bytes)
    → (c == 0) ≡ false
    → ((z : Bytes) → at_crlf (c ∷ h ++ blank z) ≡ false)
    → Cut h
    → Cut (c ∷ h)
longer c h n t (stuck s) = stuck (λ z. split-none c _ (t z) (s z))
longer c h n t (inner line h' k s) =
    inner (c ∷ line) h' (omega arith) (λ z. split-later c _ line _ n (t z) (s z))
longer c h n t (final line s) = final (c ∷ line) (λ z. split-later c _ line _ n (t z) (s z))

split-nul : (c : ℕ) (cs : Bytes) → (c == 0) ≡ true → split_line (c ∷ cs) ≡ none
unfolding split_line
split-nul c cs n = rw n refl

split-crlf :
    (c d : ℕ) (cs : Bytes)
    → (c == 0) ≡ false
    → (c == b'\r' && d == b'\n') ≡ true
    → split_line (c ∷ d ∷ cs) ≡ some ([], cs)
unfolding split_line
split-crlf c d cs n t = rw (n, t) refl

cut : (h : Bytes) → Cut h
unfolding split_line
cut [] = final [] (λ z. refl)
cut (c ∷ []) = elim (Bool-cases (c == 0)) [
  | inl n ↦ stuck (λ z. split-nul c (blank z) n)
  | inr n ↦ longer c [] n (λ z. ground arith) (final [] (λ z. refl))
]
cut (c ∷ d ∷ h) = go (Bool-cases (c == 0)) (Bool-cases (c == b'\r' && d == b'\n')) (cut (d ∷ h))
  where
    go :
        ((c == 0) ≡ true) ⊎ ((c == 0) ≡ false)
        → ((c == b'\r' && d == b'\n') ≡ true) ⊎ ((c == b'\r' && d == b'\n') ≡ false)
        → Cut (d ∷ h)
        → Cut (c ∷ d ∷ h)
    go (inl n) _ _ = stuck (λ z. split-nul c (d ∷ h ++ blank z) n)
    go (inr n) (inl t) _ = inner [] h (omega arith) (λ z. split-crlf c d (h ++ blank z) n t)
    go (inr n) (inr t) k = longer c (d ∷ h) n (λ z. t) k

pub bind_same {ℓ κ} :
    {A : Type ℓ} {B : Type κ} (r : HttpRead A) (f g : A → HttpRead B)
    → ((a : A) → f a ≡ g a)
    → (r >>= f) ≡ (r >>= g)
bind_same (http_ok a) f g h = h a
bind_same (failed status) f g h = refl

pub if_same {ℓ} :
    {A : Type ℓ} (b : Bool) (x y y' : A) → y ≡ y' → (if b then x else y) ≡ (if b then x else y')
if_same true x y y' e = refl
if_same false x y y' e = e

-- The last line is the blank one.
pub last_turn :
    (n : ℕ) (strtoull : Strtoull) (found : Option ℕ) (z : Bytes)
    → header_loop (suc n) strtoull found (b'\r' ∷ b'\n' ∷ z) ≡ http_ok found
unfolding header_loop split_line
last_turn n strtoull found z = refl

module _ (strtoull : Strtoull) where
  -- The turns from a text on, and with other bytes behind the blank line.
  IsSame : ℕ → ℕ → Bytes → Type 0
  IsSame n m h =
      (found : Option ℕ) (z z' : Bytes)
      → header_loop n strtoull found (h ++ blank z) ≡ header_loop m strtoull found (h ++ blank z')

  turn_same :
      (n m : ℕ) (h : Bytes)
      → 1 ≤ n
      → 1 ≤ m
      → Cut h
      → ((h' : Bytes) → length h' < length h → IsSame n m h')
      → (found : Option ℕ) (z z' : Bytes)
      → headers_from strtoull found
          (λ now rest. header_loop n strtoull now rest)
          (split_line (h ++ blank z))
        ≡ headers_from strtoull found
            (λ now rest. header_loop m strtoull now rest)
            (split_line (h ++ blank z'))
  unfolding headers_from IsSame
  turn_same n m h p q (stuck s) ih found z z' = rw (s z, s z') refl
  turn_same n m h p q (inner [] h' k s) ih found z z' = rw (s z, s z') refl
  turn_same n m h p q (inner (c ∷ line) h' k s) ih found z z' =
      rw (s z, s z')
        (bind_same
          (header_line strtoull found (strip_any_case (codes "CONTENT-LENGTH:") (c ∷ line))) _ _
          (λ now. ih h' k now z z'))
  turn_same n m h p q (final [] s) ih found z z' = rw (s z, s z') refl
  turn_same (suc n) (suc m) h p q (final (c ∷ line) s) ih found z z' =
      rw (s z, s z')
        (bind_same
          (header_line strtoull found (strip_any_case (codes "CONTENT-LENGTH:") (c ∷ line))) _ _
          (λ now. last_turn n strtoull now z ∙ sym (last_turn m strtoull now z')))
  turn_same zero m h p q (final (c ∷ line) s) ih found z z' = absurd (omega arith)
  turn_same (suc n) zero h p q (final (c ∷ line) s) ih found z z' = absurd (omega arith)

  loop-IsSame : (n m : ℕ) (h : Bytes) → length h + 2 ≤ n → length h + 2 ≤ m → IsSame n m h
  unfolding IsSame header_loop
  loop-IsSame zero m h p q = absurd (omega arith)
  loop-IsSame (suc n) zero h p q = absurd (omega arith)
  loop-IsSame (suc n) (suc m) [] p q =
      λ found z z'. last_turn n strtoull found _ ∙ sym (last_turn m strtoull found _)
  loop-IsSame (suc n) (suc m) (c ∷ h) p q = λ found z z'. if_same (c == 0) _ _ _ (
      turn_same n m (c ∷ h) (omega arith) (omega arith) (cut (c ∷ h))
        (λ h' k. loop-IsSame n m h' (omega arith) (omega arith)) found z z')

  content_same :
      (h z z' : Bytes)
      → parse_content_length strtoull (h ++ blank z) ≡ parse_content_length strtoull (h ++ blank z')
  unfolding parse_content_length IsSame
  content_same h z z' =
      loop-IsSame (length (h ++ blank z)) (length (h ++ blank z')) h
        (omega (arith, length-append h (blank z))) (omega (arith, length-append h (blank z'))) none
        z z'

  length_same :
      (method h z z' : Bytes)
      → head_length strtoull method (h ++ blank z) ≡ head_length strtoull method (h ++ blank z')
  unfolding head_length
  length_same method h z z' =
      ap (λ found. if str_eq method (codes "POST") then found >>= checked_length else http_ok 0)
        (content_same h z z')

  length_last :
      (method z z' : Bytes)
      → head_length strtoull method (b'\r' ∷ b'\n' ∷ z)
        ≡ head_length strtoull method (b'\r' ∷ b'\n' ∷ z')
  unfolding head_length parse_content_length
  length_last method z z' =
      ap (λ found. if str_eq method (codes "POST") then found >>= checked_length else http_ok 0)
        (last_turn (suc (length z)) strtoull none z
          ∙ sym (last_turn (suc (length z')) strtoull none z'))

  from_same :
      (h z z' : Bytes)
      → Cut h
      → head_from strtoull (split_line (h ++ blank z))
        ≡ head_from strtoull (split_line (h ++ blank z'))
  unfolding head_from
  from_same h z z' (stuck s) = rw (s z, s z') refl
  from_same h z z' (inner line h' k s) =
      rw (s z, s z')
        (bind_same (parse_request_line line) _ _
          (λ words. ap (λ r. r >>= λ n. http_ok (head_of words n)) (length_same words.0 h' z z')))
  from_same h z z' (final line s) =
      rw (s z, s z')
        (bind_same (parse_request_line line) _ _
          (λ words. ap (λ r. r >>= λ n. http_ok (head_of words n)) (length_last words.0 z z')))

  pub parse_head_same :
      (h z z' : Bytes) → parse_head strtoull (h ++ blank z) ≡ parse_head strtoull (h ++ blank z')
  unfolding parse_head
  parse_head_same h z z' = from_same h z z' (cut h)
