-- ===== src/Json/CString.antt =====
-- src/json_writer.c: what it writes is a C string.
use threaded_db_api_server.Prelude.{
  ℕ, ◌/◌, ◌%◌, ◌≡◌, refl, sym, subst, ◌⊎◌, inl, inr, Bool, true, false, Bool-cases, [], ◌∷◌, ltb,
  ◌==◌, if◌then◌else◌, arith,
}
use threaded_db_api_server.Prelude.Bytes.{Bytes, codes, c_str}
use threaded_db_api_server.Storage.Lines.Bounds.{NoNul, c_str_lem}
use threaded_db_api_server.Json.{hex_digit, escape_byte, escape_bytes}
use threaded_db_api_server.Json.RoundTrip.{request_body, request_body_lem}

NoNul-if : (b : Bool) (x y : Bytes) → NoNul x → NoNul y → NoNul (if b then x else y)
NoNul-if true x y hx hy = hx
NoNul-if false x y hx hy = hy

hex_digit-ne : (n : ℕ) → (hex_digit n == 0) ≡ false
hex_digit-ne n = ground arith

big-ne : (c : ℕ) → ltb c 32 ≡ false → (c == 0) ≡ false
big-ne c e = ground arith

control-NoNul :
    (c : ℕ) (rest : Bytes)
    → NoNul rest
    → (ltb c 32 ≡ true) ⊎ (ltb c 32 ≡ false)
    → NoNul (
        if ltb c 32
        then b'\\' ∷ b'u' ∷ b'0' ∷ b'0' ∷ hex_digit (c / 16) ∷ hex_digit (c % 16) ∷ rest
        else c ∷ rest)
control-NoNul c rest h (inl e) =
    rw e (refl, (refl, (refl, (refl, (hex_digit-ne (c / 16), (hex_digit-ne (c % 16), h))))))
control-NoNul c rest h (inr e) = rw e (big-ne c e, h)

escape_byte-NoNul : (c : ℕ) (rest : Bytes) → NoNul rest → NoNul (escape_byte c rest)
escape_byte-NoNul c rest h =
    NoNul-if (c == b'"') _ _ (refl, (refl, h))
      (NoNul-if (c == b'\\') _ _ (refl, (refl, h))
        (NoNul-if (c == b'\n') _ _ (refl, (refl, h))
          (NoNul-if (c == b'\r') _ _ (refl, (refl, h))
            (NoNul-if (c == b'\t') _ _ (refl, (refl, h))
              (control-NoNul c rest h (Bool-cases (ltb c 32)))))))

escape_bytes-NoNul : (text rest : Bytes) → NoNul rest → NoNul (escape_bytes text rest)
unfolding escape_bytes
escape_bytes-NoNul [] rest h = h
escape_bytes-NoNul (c ∷ text) rest h =
    escape_byte-NoNul c (escape_bytes text rest) (escape_bytes-NoNul text rest h)

pub c_str-request_body : (sql : Bytes) → c_str (request_body sql) ≡ request_body sql
c_str-request_body sql = c_str_lem (request_body sql) (
    subst NoNul (sym (request_body_lem sql)) (
      refl,
      (
        refl,
        (
          refl,
          (
            refl,
            (refl, (refl, (refl, (refl, escape_bytes-NoNul sql (codes "\"}") (refl, (refl, tt)))))),
          ),
        ),
      ),
    ))
