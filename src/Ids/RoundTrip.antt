-- ===== src/Ids/RoundTrip.antt =====
-- src/runtime.c: the accepted texts are the decimal texts of the positive uint64 numbers.
use native.Mathlib.Nat.{pow-suc}
use threaded_db_api_server.Prelude.{
  ℕ, zero, suc, ◌+◌, ◌-◌, ◌*◌, ◌/◌, ◌%◌, ◌^◌, ◌≤◌, ◌<◌, ◌≡◌, ◌≢◌, refl, sym, ap, ◌∙◌, ◌↔◌, Bool,
  some, [], ◌∷◌, ◌++◌, ◌==◌, arith, ◌>>=◌, append_assoc, append-nil, Bool-cases, inl, inr, true,
  not,
}
use threaded_db_api_server.Prelude.Bytes.{Bytes}
use threaded_db_api_server.Ids.{
  u64_max, parse_digits, positive, parse_canonical_positive_uint64, decimal, print_u64,
}

-- one digit more
parse_digits-append :
    (value : ℕ) (xs : Bytes) (d : ℕ)
    → parse_digits value (xs ++ (d ∷ [])) ≡ (parse_digits value xs >>= λ v. parse_digits v (d ∷ []))
unfolding parse_digits
parse_digits-append value [] d = refl
parse_digits-append value (c ∷ cs) d =
    ground (arith, parse_digits-append ((value * 10 + (c - b'0')) % 2 ^ 64) cs d)

-- The overflow test passes exactly as long as the number fits.
parse_digits_last :
    (v d : ℕ) → d < 10 → v * 10 + d ≤ u64_max → parse_digits v ((b'0' + d) ∷ []) ≡ some (v * 10 + d)
unfolding parse_digits
parse_digits_last v d h u = ground arith

pub parse_digits-decimal :
    (f n : ℕ) → n < 10 ^ f → n ≤ u64_max → parse_digits 0 (decimal f n) ≡ some n
unfolding parse_digits decimal
parse_digits-decimal zero n h u = ap some (omega arith)
parse_digits-decimal (suc f) n h u = elim (Bool-cases (n / 10 == 0)) [
  | inl small ↦ rw small (ground arith)
  | inr large ↦
      rw
        (
          large,
          parse_digits-append,
          parse_digits-decimal f (n / 10) (omega (arith, pow-suc 10 f)) (omega arith),
        )
        (parse_digits_last (n / 10) (n % 10) (omega arith) (omega arith) ∙ ap some (omega arith))
]

-- The first digit of a positive number is no zero.
abbrev LeadsWith : (ℕ → Bool) → Bytes → Type 0
LeadsWith p [] = ⊥
LeadsWith p (c ∷ cs) = p c ≡ true

LeadsWith-append : (p : ℕ → Bool) (xs ys : Bytes) → LeadsWith p xs → LeadsWith p (xs ++ ys)
LeadsWith-append p [] ys h = absurd h
LeadsWith-append p (c ∷ xs) ys h = h

abbrev not_zero_digit : ℕ → Bool
not_zero_digit c = not (c == b'0')

decimal-LeadsWith : (f n : ℕ) → n < 10 ^ f → 0 < n → LeadsWith not_zero_digit (decimal f n)
unfolding decimal
decimal-LeadsWith zero n h p = absurd (omega arith)
decimal-LeadsWith (suc f) n h p = elim (Bool-cases (n / 10 == 0)) [
  | inl small ↦ rw small (ground arith)
  | inr large ↦
      let q : n / 10 ≢ 0 = ground arith in
      rw large (
        LeadsWith-append not_zero_digit (decimal f (n / 10)) ((b'0' + n % 10) ∷ [])
          (decimal-LeadsWith f (n / 10) (omega (arith, pow-suc 10 f)) (omega arith)))
]

parse_LeadsWith :
    (t : Bytes) (n : ℕ)
    → LeadsWith not_zero_digit t
    → parse_digits 0 t ≡ some n
    → 0 < n
    → parse_canonical_positive_uint64 t ≡ some n
unfolding parse_canonical_positive_uint64 positive
parse_LeadsWith [] n l e p = absurd l
parse_LeadsWith (c ∷ cs) n l e p = ground arith

-- The text of a generated id is read back as that id.
pub parse-print_u64 :
    (n : ℕ) → 0 < n → n ≤ u64_max → parse_canonical_positive_uint64 (print_u64 n) ≡ some n
unfolding print_u64
parse-print_u64 n p u =
    parse_LeadsWith (decimal 20 n) n (decimal-LeadsWith 20 n (omega arith) p)
      (parse_digits-decimal 20 n (omega arith) u) p

decimal_stable : (f n : ℕ) → n < 10 ^ suc f → decimal (suc (suc f)) n ≡ decimal (suc f) n
unfolding decimal
decimal_stable zero n h = ground arith
decimal_stable (suc f) n h = rw (decimal_stable f (n / 10) (omega (arith, pow-suc 10 (suc f))))

decimal-concat :
    (f v d : ℕ) → 0 < v → d < 10 → decimal (suc f) (v * 10 + d) ≡ decimal f v ++ ((b'0' + d) ∷ [])
unfolding decimal
decimal-concat f v d p h =
    let q : (v * 10 + d) / 10 ≡ v = omega arith in
    let r : (v * 10 + d) % 10 ≡ d = omega arith in rw (q, r) (ground arith)

print_u64-concat :
    (v d : ℕ)
    → 0 < v
    → d < 10
    → v * 10 + d ≤ u64_max
    → print_u64 (v * 10 + d) ≡ print_u64 v ++ ((b'0' + d) ∷ [])
unfolding print_u64
print_u64-concat v d p h u =
    decimal-concat 19 v d p h
    ∙ ap (λ t. t ++ ((b'0' + d) ∷ [])) (sym (decimal_stable 18 v (omega arith)))

abbrev IsPrinted : Bytes → ℕ → Type 0
IsPrinted t n = (t ≡ print_u64 n) × (0 < n) × (n ≤ u64_max)

-- What one accepted digit says.
record Digit (v c n : ℕ) (cs : Bytes) : Type 0 where
  low : b'0' ≤ c
  high : c ≤ b'9'
  fits : v * 10 + (c - b'0') ≤ u64_max
  later : parse_digits (v * 10 + (c - b'0')) cs ≡ some n

digit_bounds :
    (v c n : ℕ) (cs : Bytes)
    → parse_digits v (c ∷ cs) ≡ some n
    → (b'0' ≤ c)
      × (c ≤ b'9')
      × (v ≤ (u64_max - (c - b'0')) / 10)
      × (parse_digits ((v * 10 + (c - b'0')) % 2 ^ 64) cs ≡ some n)
unfolding parse_digits
digit_bounds v c n cs e = ground arith

parse_digits-Digit : (v c n : ℕ) (cs : Bytes) → parse_digits v (c ∷ cs) ≡ some n → Digit v c n cs
parse_digits-Digit v c n cs e =
    let b = digit_bounds v c n cs e in
    let fits : v * 10 + (c - b'0') ≤ u64_max = omega (arith, b.2) in
    let same : (v * 10 + (c - b'0')) % 2 ^ 64 ≡ v * 10 + (c - b'0') = omega arith in
    record { low = b.0; high = b.1; fits = fits; later = rw same at b.3 }

parse_digits-IsPrinted :
    (cs : Bytes) (v n : ℕ)
    → 0 < v
    → v ≤ u64_max
    → parse_digits v cs ≡ some n
    → IsPrinted (print_u64 v ++ cs) n
unfolding parse_digits
parse_digits-IsPrinted [] v n p u e =
    let same : v ≡ n = cc in
    (append-nil (print_u64 v) ∙ ap print_u64 same, omega arith, omega arith)
parse_digits-IsPrinted (c ∷ cs) v n p u e =
    let d = parse_digits-Digit v c n cs e in
    let fits = d.fits in
    let low = d.low in
    let high = d.high in
    let char : b'0' + (c - b'0') ≡ c = omega arith in
    let (t, q, r) = parse_digits-IsPrinted cs (v * 10 + (c - b'0')) n (omega arith) fits d.later in
    (
      (sym (append_assoc (print_u64 v) (c ∷ []) cs)
          ∙ ap (λ x. (print_u64 v ++ (x ∷ [])) ++ cs) (sym char)
          ∙ ap (λ x. x ++ cs) (sym (print_u64-concat v (c - b'0') p (omega arith) fits))
          ∙ t),
      q,
      r,
    )

canonical_head :
    (c : ℕ) (cs : Bytes) (n : ℕ)
    → parse_canonical_positive_uint64 (c ∷ cs) ≡ some n
    → (c ≢ b'0') × (parse_digits 0 (c ∷ cs) ≡ some n)
unfolding parse_canonical_positive_uint64 positive
canonical_head c cs n e = ground arith

print_u64_digit : (c : ℕ) → b'0' < c → c ≤ b'9' → print_u64 (c - b'0') ≡ c ∷ []
unfolding print_u64 decimal
print_u64_digit c p q = ground arith

parse_canonical-IsPrinted :
    (t : Bytes) (n : ℕ) → parse_canonical_positive_uint64 t ≡ some n → IsPrinted t n
unfolding parse_canonical_positive_uint64
parse_canonical-IsPrinted [] n e = cc
parse_canonical-IsPrinted (c ∷ cs) n e =
    let (ne, f) = canonical_head c cs n e in
    let d = parse_digits-Digit 0 c n cs f in
    let low = d.low in
    let high = d.high in
    let zero_off : 0 * 10 + (c - b'0') ≡ c - b'0' = omega arith in
    let (t, q, r) =
      parse_digits-IsPrinted cs (c - b'0') n (omega arith) (omega arith) (rw zero_off at d.later) in
    (ap (λ x. x ++ cs) (sym (print_u64_digit c (omega arith) high)) ∙ t, q, r)

-- A text is accepted as an id, and read as a number, exactly when it is the decimal text of that
-- number and the number lies between 1 and UINT64_MAX.
pub parse_canonical_iff :
    (t : Bytes) (n : ℕ)
    → (parse_canonical_positive_uint64 t ≡ some n) ↔ ((t ≡ print_u64 n) × (0 < n) × (n ≤ u64_max))
parse_canonical_iff t n = (
  parse_canonical-IsPrinted t n,
  λ h. ap parse_canonical_positive_uint64 h.0 ∙ parse-print_u64 n h.1 h.2,
)
