-- ===== src/Http/Head/Limits.antt =====
-- src/http.c: every head is read or refused, within the limits of include/http.h.
use threaded_db_api_server.Prelude.{
  ℕ, zero, suc, ◌≤◌, ◌<◌, ◌≡◌, refl, Bool, true, false, ◌||◌, Option, none, some, [], ◌∷◌, length,
  ltb, leb, ◌==◌, if◌then◌else◌, arith,
}
use mathlib.Core.Option
use threaded_db_api_server.Prelude.Bytes.{Bytes, codes, str_eq}
use threaded_db_api_server.Http.Head.{
  HttpRead, http_ok, failed, bad_request, payload_too_large, ◌>>=◌, Strtoull, RequestHead, at_crlf,
  behind_crlf, split_line, split_space, request_line_of, second_word, first_word,
  parse_request_line, skip_blanks, length_value, content_length_value, header_line, headers_from,
  header_loop, parse_content_length, checked_length, head_length, head_from, parse_head,
  max_body_size, max_method_size, max_path_size,
}

-- What was read has the property, or the client is refused.
pub data Answered {ℓ κ} {A : Type ℓ} (Holds : A → Type κ) : HttpRead A → Type (ℓ ⊔ κ) where
  was_read : {got : A} → Holds got → Answered Holds (http_ok got)
  was_bad : Answered Holds (failed bad_request)
  was_large : Answered Holds (failed payload_too_large)

pub Answered-then {ℓ κ μ ν} :
    {A : Type ℓ} {Holds : A → Type κ} {B : Type μ} {After : B → Type ν} {read : HttpRead A}
    {next : A → HttpRead B}
    → Answered Holds read
    → ((got : A) → Holds got → Answered After (next got))
    → Answered After (read >>= next)
Answered-then (was_read {got} holds) k = k got holds
Answered-then was_bad k = was_bad
Answered-then was_large k = was_large

pub Answered-if {ℓ κ} :
    {A : Type ℓ} {Holds : A → Type κ} {left right : HttpRead A} (test : Bool)
    → (test ≡ true → Answered Holds left)
    → (test ≡ false → Answered Holds right)
    → Answered Holds (if test then left else right)
Answered-if false l r = r refl
Answered-if true l r = l refl

-- The words fit the arrays of `HttpRequest`, with a NUL behind each.
pub record Fits (words : Bytes × Bytes) : Type 0 where
  pub has_method : 0 < length words.0
  pub method_fits : length words.0 < max_method_size
  pub has_path : 0 < length words.1
  pub path_fits : length words.1 < max_path_size

or_false : (a b : Bool) → (a || b) ≡ false → (a ≡ false) × (b ≡ false)
or_false false b e = (refl, e)
or_false true b e = absurd (cc e)

fits_lem :
    (m p v : ℕ) (b : Bool)
    → (m == 0 || leb max_method_size m || p == 0 || leb max_path_size p || v == 0 || b) ≡ false
    → (0 < m) × (m < max_method_size) × (0 < p) × (p < max_path_size)
fits_lem m p v b e = ground (arith, e)

request_line_of-Fits :
    (method path version : Bytes) → Answered Fits (request_line_of method path version)
unfolding request_line_of
request_line_of-Fits method path version =
    Answered-if _ (λ _. was_bad)
      λ e.
        let (a, b, c, d) = fits_lem (length method) (length path) (length version) _ e in
        was_read (record { has_method = a; method_fits = b; has_path = c; path_fits = d })

request_line-Fits : (line : Bytes) → Answered Fits (parse_request_line line)
unfolding parse_request_line
request_line-Fits line = first (split_space line)
  where
    second : (method : Bytes) (o : Option (Bytes × Bytes)) → Answered Fits (second_word method o)
    second method none = was_bad
    second method (some (path, version)) = request_line_of-Fits method path version

    first : (o : Option (Bytes × Bytes)) → Answered Fits (first_word o)
    first none = was_bad
    first (some (method, rest)) = second method (split_space rest)

-- A line that is split off leaves less.
Less : ℕ → Option (Bytes × Bytes) → Type 0
Less k none = Unit
Less k (some (line, rest)) = length rest < k

Less-if :
    (k : ℕ) (b : Bool) (x y : Option (Bytes × Bytes))
    → Less k x
    → Less k y
    → Less k (if b then x else y)
Less-if k true x y hx hy = hx
Less-if k false x y hx hy = hy

Less-map :
    (k c : ℕ) (o : Option (Bytes × Bytes))
    → Less k o
    → Less (suc k) (Option.map (λ s. (c ∷ s.0, s.1)) o)
unfolding Less
Less-map k c none h = tt
Less-map k c (some (line, rest)) h = omega arith

split_line-Less : (text : Bytes) → Less (length text) (split_line text)
unfolding split_line Less
split_line-Less [] = tt
split_line-Less (c ∷ cs) = Less-if _ (c == 0) _ _ tt (
    Less-if _ (at_crlf (c ∷ cs)) _ _ (behind cs)
      (Less-map (length cs) c (split_line cs) (split_line-Less cs)))
  where
    behind : (cs : Bytes) → length (behind_crlf (c ∷ cs)) < length (c ∷ cs)
    behind [] = omega arith
    behind (d ∷ cs) = omega arith

abbrev Any : {A : Type 0} → A → Type 0
Any a = Unit

length_value-Answered : (r : ℕ × Bytes) → Answered Any (length_value r)
unfolding length_value
length_value-Answered (n, []) = was_read tt
length_value-Answered (n, c ∷ cs) = was_bad

value-Answered :
    (strtoull : Strtoull) (value : Bytes) → Answered Any (content_length_value strtoull value)
unfolding content_length_value
value-Answered strtoull [] = was_bad
value-Answered strtoull (c ∷ cs) = length_value-Answered (strtoull (c ∷ cs))

line-Answered :
    (strtoull : Strtoull) (found : Option ℕ) (value : Option Bytes)
    → Answered Any (header_line strtoull found value)
unfolding header_line
line-Answered strtoull found none = was_read tt
line-Answered strtoull (some n) (some value) = was_bad
line-Answered strtoull none (some value) =
    Answered-then (value-Answered strtoull (skip_blanks value)) λ n _. was_read tt

loop-Answered :
    (fuel : ℕ) (strtoull : Strtoull) (found : Option ℕ) (text : Bytes)
    → length text ≤ fuel
    → Answered Any (header_loop fuel strtoull found text)
unfolding header_loop Less
loop-Answered fuel strtoull found [] h = was_read tt
loop-Answered zero strtoull found (c ∷ cs) h = absurd (omega arith)
loop-Answered (suc fuel) strtoull found (c ∷ cs) h =
    Answered-if (c == 0) (λ _. was_read tt)
      λ _. turn (split_line (c ∷ cs)) (split_line-Less (c ∷ cs)) (loop-Answered fuel strtoull)
  where
    turn :
        (o : Option (Bytes × Bytes))
        → Less (length (c ∷ cs)) o
        → ((now : Option ℕ) (rest : Bytes)
            → length rest ≤ fuel
            → Answered Any (header_loop fuel strtoull now rest))
        → Answered Any
            (headers_from strtoull found (λ now rest. header_loop fuel strtoull now rest) o)
    turn none l ih = was_bad
    turn (some ([], rest)) l ih = was_read tt
    turn (some (d ∷ line, rest)) l ih =
        Answered-then (line-Answered strtoull found _) λ now _. ih now rest (omega (arith, l))

checked-Answered : (o : Option ℕ) → Answered (λ n. n ≤ max_body_size) (checked_length o)
unfolding checked_length
checked-Answered none = was_bad
checked-Answered (some n) =
    Answered-if (ltb max_body_size n) (λ _. was_large) λ e. was_read (ground (arith, e))

length-Answered :
    (strtoull : Strtoull) (method headers : Bytes)
    → Answered (λ n. n ≤ max_body_size) (head_length strtoull method headers)
unfolding head_length parse_content_length
length-Answered strtoull method headers =
    Answered-if (str_eq method (codes "POST"))
      (λ _.
        Answered-then (loop-Answered (length headers) strtoull none headers (omega arith))
          λ o _. checked-Answered o)
      λ _. was_read (omega arith)

-- The words and the length of a head.
pub record WithinHead (head : RequestHead) : Type 0 where
  pub words_fit : Fits (head.method, head.path)
  pub body_fits : head.body_length ≤ max_body_size

pub parse_head-Answered :
    (strtoull : Strtoull) (buffer : Bytes) → Answered WithinHead (parse_head strtoull buffer)
unfolding parse_head head_from
parse_head-Answered strtoull buffer = from (split_line buffer)
  where
    from : (o : Option (Bytes × Bytes)) → Answered WithinHead (head_from strtoull o)
    from none = was_bad
    from (some (line, headers)) = Answered-then (request_line-Fits line) λ words fit.
        Answered-then (length-Answered strtoull words.0 headers)
          λ n small. was_read (record { words_fit = fit; body_fits = small })
