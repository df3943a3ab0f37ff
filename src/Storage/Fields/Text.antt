-- ===== src/Storage/Fields/Text.antt =====
-- src/storage.c: the text of a row stands on one line, and ends in a carriage return just when the
-- last value does.
use threaded_db_api_server.Prelude.{
  ℕ, suc, ◌≡◌, ◌≢◌, refl, ap, ◌∙◌, sym, false, [], ◌∷◌, ◌++◌, ltb, ◌==◌, if◌then◌else◌, arith,
  Bool-cases, inl, inr, All, All-append, append-nil,
}
use threaded_db_api_server.Prelude.Bytes.{Bytes}
use threaded_db_api_server.Storage.Fields.{Row, escape_byte, escape_field, write_values}
use threaded_db_api_server.Storage.Lines.{strip_cr}
use threaded_db_api_server.Storage.Lines.Bounds.{NoNewline, NoNul, strip_cr-append, strip_cr-cons}

escape_byte-NoNewline : (c : ℕ) → NoNewline (escape_byte c)
unfolding escape_byte
escape_byte-NoNewline c = ground arith

escape_byte-NoNul : (c : ℕ) → (c == 0) ≡ false → NoNul (escape_byte c)
unfolding escape_byte
escape_byte-NoNul c h = ground arith

escape_field-NoNewline : (v : Bytes) → NoNewline (escape_field v)
unfolding escape_field
escape_field-NoNewline [] = tt
escape_field-NoNewline (c ∷ cs) =
    All-append _ (escape_byte c) (escape_field cs) (escape_byte-NoNewline c)
      (escape_field-NoNewline cs)

escape_field-NoNul : (v : Bytes) → NoNul v → NoNul (escape_field v)
unfolding escape_field
escape_field-NoNul [] h = tt
escape_field-NoNul (c ∷ cs) h =
    All-append _ (escape_byte c) (escape_field cs) (escape_byte-NoNul c h.0)
      (escape_field-NoNul cs h.1)

-- A row of C strings.
abbrev pub AreTexts : Row → Type 0
AreTexts = All NoNul

bar-NoNewline : (i : ℕ) → NoNewline (if ltb 0 i then b'|' ∷ [] else [])
bar-NoNewline i = ground arith

bar-NoNul : (i : ℕ) → NoNul (if ltb 0 i then b'|' ∷ [] else [])
bar-NoNul i = ground arith

pub write_values-NoNewline : (i : ℕ) (row : Row) → NoNewline (write_values i row)
unfolding write_values
write_values-NoNewline i [] = tt
write_values-NoNewline i (v ∷ vs) =
    All-append _ (if ltb 0 i then b'|' ∷ [] else []) _ (bar-NoNewline i) (
      All-append _ (escape_field v) _ (escape_field-NoNewline v)
        (write_values-NoNewline (suc i) vs))

pub write_values-NoNul : (i : ℕ) (row : Row) → AreTexts row → NoNul (write_values i row)
unfolding write_values
write_values-NoNul i [] h = tt
write_values-NoNul i (v ∷ vs) h =
    All-append _ (if ltb 0 i then b'|' ∷ [] else []) _ (bar-NoNul i) (
      All-append _ (escape_field v) _ (escape_field-NoNul v h.0)
        (write_values-NoNul (suc i) vs h.1))

-- The row without a carriage return at the end of its last value.
abbrev pub strip_last : Row → Row
strip_last [] = []
strip_last (v ∷ []) = strip_cr v ∷ []
strip_last (v ∷ w ∷ vs) = v ∷ strip_last (w ∷ vs)

escape_field-ne-nil : (c : ℕ) (cs : Bytes) → escape_field (c ∷ cs) ≢ []
unfolding escape_field escape_byte
escape_field-ne-nil c cs e = ground arith

strip_cr-escape_byte : (c : ℕ) → strip_cr (escape_byte c ++ []) ≡ escape_field (strip_cr (c ∷ []))
unfolding escape_field escape_byte strip_cr
strip_cr-escape_byte c = ground arith

strip_cr-escape_field : (v : Bytes) → strip_cr (escape_field v) ≡ escape_field (strip_cr v)
unfolding escape_field strip_cr
strip_cr-escape_field [] = refl
strip_cr-escape_field (c ∷ []) = strip_cr-escape_byte c
strip_cr-escape_field (c ∷ d ∷ cs) =
    strip_cr-append (escape_byte c) (escape_field (d ∷ cs)) (escape_field-ne-nil d cs)
    ∙ ap (λ r. escape_byte c ++ r) (strip_cr-escape_field (d ∷ cs))

strip_cr-bar :
    (i : ℕ) (t : Bytes)
    → strip_cr ((if ltb 0 i then b'|' ∷ [] else []) ++ t)
      ≡ (if ltb 0 i then b'|' ∷ [] else []) ++ strip_cr t
strip_cr-bar i t = elim (Bool-cases (ltb 0 i)) [
  | inl p ↦ rw p (strip_cr-cons b'|' t refl)
  | inr p ↦ rw p refl
]

write_values-ne-nil : (i : ℕ) (v : Bytes) (vs : Row) → write_values (suc i) (v ∷ vs) ≢ []
unfolding write_values
write_values-ne-nil i v vs e = ground arith

-- Stripping the text of a row strips its last value.
pub strip_cr-write_values :
    (i : ℕ) (row : Row) → strip_cr (write_values i row) ≡ write_values i (strip_last row)
unfolding write_values strip_cr
strip_cr-write_values i [] = refl
strip_cr-write_values i (v ∷ []) =
    strip_cr-bar i (escape_field v ++ [])
    ∙ ap (λ r. (if ltb 0 i then b'|' ∷ [] else []) ++ r)
        (ap strip_cr (append-nil (escape_field v))
          ∙ strip_cr-escape_field v
          ∙ sym (append-nil (escape_field (strip_cr v))))
strip_cr-write_values i (v ∷ w ∷ vs) =
    strip_cr-bar i _
    ∙ ap (λ r. (if ltb 0 i then b'|' ∷ [] else []) ++ r)
        (strip_cr-append (escape_field v) (write_values (suc i) (w ∷ vs))
            (write_values-ne-nil i w vs)
          ∙ ap (λ r. escape_field v ++ r) (strip_cr-write_values (suc i) (w ∷ vs)))
