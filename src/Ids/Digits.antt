-- ===== src/Ids/Digits.antt =====
-- src/executor.c: the text of a generated id goes to a file and back unchanged, being digits.
use threaded_db_api_server.Prelude.{
  ℕ, zero, suc, ◌+◌, ◌%◌, ◌++◌, length, length-append, if◌then◌else◌, ◌/◌, ◌≤◌, ◌≡◌, refl, ap, [],
  ◌∷◌, ◌==◌, arith, All, All-append, Bool-cases, inl, inr,
}
use threaded_db_api_server.Prelude.Bytes.{Bytes}
use threaded_db_api_server.Ids.{decimal, print_u64}
use threaded_db_api_server.Storage.Lines.{strip_cr}
use threaded_db_api_server.Storage.Lines.Bounds.{NoNul}

abbrev pub FromZero : Bytes → Type 0
FromZero = All (λ c. b'0' ≤ c)

decimal-FromZero : (f n : ℕ) → FromZero (decimal f n)
unfolding decimal
decimal-FromZero zero n = tt
decimal-FromZero (suc f) n = elim (Bool-cases (n / 10 == 0)) [
  | inl e ↦ rw e (omega arith, tt)
  | inr e ↦
      rw e (All-append _ (decimal f (n / 10)) _ (decimal-FromZero f (n / 10)) (omega arith, tt))
]

pub print_u64-FromZero : (n : ℕ) → FromZero (print_u64 n)
unfolding print_u64
print_u64-FromZero n = decimal-FromZero 20 n

last-cons : (xs : Bytes) (d : ℕ) → (c : ℕ) × (cs : Bytes) × (xs ++ (d ∷ []) ≡ c ∷ cs)
last-cons [] d = (d, [], refl)
last-cons (x ∷ xs) d = (x, xs ++ (d ∷ []), refl)

pub print_u64-cons : (n : ℕ) → (c : ℕ) × (cs : Bytes) × (print_u64 n ≡ c ∷ cs)
unfolding print_u64 decimal
print_u64-cons n = last-cons (if n / 10 == 0 then [] else decimal 19 (n / 10)) (b'0' + n % 10)

length-decimal : (fuel n : ℕ) → length (decimal fuel n) ≤ fuel
unfolding decimal
length-decimal zero n = omega arith
length-decimal (suc fuel) n = elim (Bool-cases (n / 10 == 0)) [
  | inl e ↦ rw e (omega arith)
  | inr e ↦ rw e (
      omega (
        arith,
        length-append (decimal fuel (n / 10)) ((b'0' + n % 10) ∷ []),
        length-decimal fuel (n / 10),
      ))
]

pub length-print_u64 : (n : ℕ) → length (print_u64 n) ≤ 20
unfolding print_u64
length-print_u64 n = length-decimal 20 n

pub FromZero-NoNul : (cs : Bytes) → FromZero cs → NoNul cs
FromZero-NoNul [] h = tt
FromZero-NoNul (c ∷ cs) h = (ground (arith, h.0), FromZero-NoNul cs h.1)

pub FromZero-strip_cr : (cs : Bytes) → FromZero cs → strip_cr cs ≡ cs
unfolding strip_cr
FromZero-strip_cr [] h = refl
FromZero-strip_cr (c ∷ []) h = ground (arith, h.0)
FromZero-strip_cr (c ∷ d ∷ cs) h = ap (λ r. c ∷ r) (FromZero-strip_cr (d ∷ cs) h.1)
