-- ===== src/Http/Head/Prefix.antt =====
-- src/http.c: the head of a request ends at its blank line, whatever stands behind.
use threaded_db_api_server.Prelude.{
  ℕ, suc, ◌+◌, ◌≤◌, ◌≡◌, refl, ap, sym, ◌∙◌, ◌⊎◌, inl, inr, Bool, true, false, Bool-cases, Option,
  none, some, [], ◌∷◌, ◌++◌, length, length-append, if◌then◌else◌, arith,
}
use mathlib.Core.Option
use threaded_db_api_server.Prelude.Bytes.{Bytes}
use threaded_db_api_server.Http.Head.{at_blank, find_header_end}

-- "\r\n\r\n" and what stands behind
abbrev pub blank : Bytes → Bytes
blank z = b'\r' ∷ b'\n' ∷ b'\r' ∷ b'\n' ∷ z

map_suc_lem :
    (o : Option ℕ) (i : ℕ)
    → Option.map (λ j. suc j) o ≡ some i
    → (j : ℕ) × (o ≡ some j) × (i ≡ suc j)
map_suc_lem none i e = absurd (cc e)
map_suc_lem (some j) i e = (j, refl, cc e)

at_blank_lem : (b : Bytes) → at_blank b ≡ true → (z : Bytes) × (b ≡ blank z)
at_blank_lem [] e = absurd (cc e)
at_blank_lem (a ∷ []) e = absurd (cc e)
at_blank_lem (a ∷ b ∷ []) e = absurd (ground (arith, e))
at_blank_lem (a ∷ b ∷ c ∷ []) e = absurd (ground (arith, e))
at_blank_lem (a ∷ b ∷ c ∷ d ∷ z) e = (z, ground arith)

at_blank-append : (b x : Bytes) → 4 ≤ length b → at_blank (b ++ x) ≡ at_blank b
at_blank-append [] x h = absurd (omega arith)
at_blank-append (a ∷ []) x h = absurd (omega arith)
at_blank-append (a ∷ b ∷ []) x h = absurd (omega arith)
at_blank-append (a ∷ b ∷ c ∷ []) x h = absurd (omega arith)
at_blank-append (a ∷ b ∷ c ∷ d ∷ z) x h = refl

some-if : (b : Bool) (o : Option ℕ) (i : ℕ) → b ≡ true → (if b then some 0 else o) ≡ some i → 0 ≡ i
some-if true o i t e = cc e
some-if false o i t e = absurd (cc t)

later-if :
    (b : Bool) (o : Option ℕ) (i : ℕ) → b ≡ false → (if b then some 0 else o) ≡ some i → o ≡ some i
later-if true o i t e = absurd (cc t)
later-if false o i t e = e

-- What was found is the first blank line.
pub find_header_end_lem :
    (b : Bytes) (i : ℕ)
    → find_header_end b ≡ some i
    → (h : Bytes) × (z : Bytes) × (b ≡ h ++ blank z) × (length h ≡ i)
unfolding find_header_end
find_header_end_lem [] i e = absurd (cc e)
find_header_end_lem (c ∷ cs) i e = go (Bool-cases (at_blank (c ∷ cs))) (find_header_end_lem cs) e
  where
    go :
        (at_blank (c ∷ cs) ≡ true) ⊎ (at_blank (c ∷ cs) ≡ false)
        → ((j : ℕ)
            → find_header_end cs ≡ some j
            → (h : Bytes) × (z : Bytes) × (cs ≡ h ++ blank z) × (length h ≡ j))
        → find_header_end (c ∷ cs) ≡ some i
        → (h : Bytes) × (z : Bytes) × (c ∷ cs ≡ h ++ blank z) × (length h ≡ i)
    go (inl t) ih e = let (z, same) = at_blank_lem (c ∷ cs) t in ([], z, same, some-if _ _ i t e)
    go (inr t) ih e =
        let (j, found, s) = map_suc_lem (find_header_end cs) i (later-if _ _ i t e) in
        let (h, z, same, n) = ih j found in (c ∷ h, z, ap (λ r. c ∷ r) same, cc (n, s))

pub find_bound : (b : Bytes) (i : ℕ) → find_header_end b ≡ some i → i + 4 ≤ length b
find_bound b i e =
    let (h, z, same, n) = find_header_end_lem b i e in
    omega (arith, n, ap length same, length-append h (blank z))

-- What is found is found with more behind it.
pub find-append :
    (b x : Bytes) (i : ℕ) → find_header_end b ≡ some i → find_header_end (b ++ x) ≡ some i
unfolding find_header_end
find-append [] x i e = absurd (cc e)
find-append (c ∷ cs) x i e = go (Bool-cases (at_blank (c ∷ cs))) (find-append cs x)
  where
    same : at_blank (c ∷ cs ++ x) ≡ at_blank (c ∷ cs)
    same = at_blank-append (c ∷ cs) x (let h = find_bound (c ∷ cs) i e in omega arith)

    go :
        (at_blank (c ∷ cs) ≡ true) ⊎ (at_blank (c ∷ cs) ≡ false)
        → ((j : ℕ) → find_header_end cs ≡ some j → find_header_end (cs ++ x) ≡ some j)
        → find_header_end (c ∷ (cs ++ x)) ≡ some i
    go (inl t) ih = rw (same ∙ t) (ap some (some-if _ _ i t e))
    go (inr t) ih =
        let (j, found, s) = map_suc_lem (find_header_end cs) i (later-if _ _ i t e) in
        rw (same ∙ t, ih j found) (ap some (sym s))

-- What is found in a longer text, within a part of it, is found in that part.
pub find-within :
    (b x : Bytes) (i : ℕ)
    → find_header_end (b ++ x) ≡ some i
    → i + 4 ≤ length b
    → find_header_end b ≡ some i
unfolding find_header_end
find-within [] x i e h = absurd (omega arith)
find-within (c ∷ cs) x i e h = go (Bool-cases (at_blank (c ∷ cs))) (find-within cs x)
  where
    same : at_blank (c ∷ (cs ++ x)) ≡ at_blank (c ∷ cs)
    same = at_blank-append (c ∷ cs) x (omega arith)

    go :
        (at_blank (c ∷ cs) ≡ true) ⊎ (at_blank (c ∷ cs) ≡ false)
        → ((j : ℕ)
            → find_header_end (cs ++ x) ≡ some j
            → j + 4 ≤ length cs
            → find_header_end cs ≡ some j)
        → find_header_end (c ∷ cs) ≡ some i
    go (inl t) ih = rw t (ap some (some-if _ _ i (same ∙ t) e))
    go (inr t) ih =
        let (j, found, s) =
          map_suc_lem (find_header_end (cs ++ x)) i (later-if _ _ i (same ∙ t) e) in
        rw (t, ih j found (omega arith)) (ap some (sym s))
