-- ===== src/Executor/Insert/GeneratedRow.antt =====
-- src/executor.c: the row of an INSERT with a generated id.
use threaded_db_api_server.Prelude.{
  ℕ, zero, suc, ◌+◌, ◌<◌, ◌≡◌, ◌≢◌, refl, ap, ◌∙◌, subst, true, false, some, List, [], ◌∷◌, length,
  get_elem?, ◌==◌, set, replicate, arith, Bool-cases, Option-cases, inl, inr, All, length-set,
  length-replicate,
}
use threaded_db_api_server.Prelude.Bytes.{Bytes}
use threaded_db_api_server.Errors.{ok}
use threaded_db_api_server.Ids.{print_u64}
use threaded_db_api_server.Ids.Digits.{print_u64-FromZero, FromZero-NoNul, FromZero-strip_cr}
use threaded_db_api_server.Schema.{TableSchema, schema_find_column_index}
use threaded_db_api_server.Storage.Fields.{Row}
use threaded_db_api_server.Storage.Fields.Text.{AreTexts, strip_last}
use threaded_db_api_server.Storage.Lines.Bounds.{NoNul}
use threaded_db_api_server.Executor.{LiteralValue, InsertStatement}
use threaded_db_api_server.Executor.Insert.{
  place_values, place_columns, build_insert_row_with_generated_id,
}

-- The literals are C strings.
abbrev pub AreLiterals : List LiteralValue → Type 0
AreLiterals = All (λ v. NoNul v.text)

length-place_values :
    (n s i : ℕ) (t : Bytes) (vs : List LiteralValue) → length (place_values n s i t vs) ≡ n
unfolding place_values
length-place_values zero s i t vs = refl
length-place_values (suc n) s i t [] = ap suc (length-place_values n (s + 1) i t [])
length-place_values (suc n) s i t (v ∷ vs) = elim (Bool-cases (s == i)) [
  | inl e ↦ rw e (ap suc (length-place_values n (s + 1) i t (v ∷ vs)))
  | inr e ↦ rw e (ap suc (length-place_values n (s + 1) i t vs))
]

place_values-AreTexts :
    (n s i : ℕ) (t : Bytes) (vs : List LiteralValue)
    → NoNul t
    → AreLiterals vs
    → AreTexts (place_values n s i t vs)
unfolding place_values
place_values-AreTexts zero s i t vs h l = tt
place_values-AreTexts (suc n) s i t [] h l = elim (Bool-cases (s == i)) [
  | inl e ↦ rw e (h, place_values-AreTexts n (s + 1) i t [] h l)
  | inr e ↦ rw e (tt, place_values-AreTexts n (s + 1) i t [] h l)
]
place_values-AreTexts (suc n) s i t (v ∷ vs) h l = elim (Bool-cases (s == i)) [
  | inl e ↦ rw e (h, place_values-AreTexts n (s + 1) i t (v ∷ vs) h l)
  | inr e ↦ rw e (l.0, place_values-AreTexts n (s + 1) i t vs h l.1)
]

-- the head of a list at the index k, or the rest
get_elem?-place_values :
    (n s i k : ℕ) (t : Bytes) (vs : List LiteralValue)
    → i ≡ s + k
    → k < n
    → get_elem? (place_values n s i t vs) k ≡ some t
unfolding place_values
get_elem?-place_values zero s i k t vs e h = absurd (omega arith)
get_elem?-place_values (suc n) s i zero t [] e h =
    let here : (s == i) ≡ true = ground arith in rw here refl
get_elem?-place_values (suc n) s i zero t (v ∷ vs) e h =
    let here : (s == i) ≡ true = ground arith in rw here refl
get_elem?-place_values (suc n) s i (suc k) t [] e h =
    get_elem?-place_values n (s + 1) i k t [] (omega arith) (omega arith)
get_elem?-place_values (suc n) s i (suc k) t (v ∷ vs) e h =
    let later : (s == i) ≡ false = ground arith in
    rw later (get_elem?-place_values n (s + 1) i k t vs (omega arith) (omega arith))

get_elem?-set_ne {ℓ} :
    {A : Type ℓ} (xs : List A) (i j : ℕ) (v : A) → i ≢ j → get_elem? (set xs i v) j ≡ get_elem? xs j
get_elem?-set_ne [] i j v h = refl
get_elem?-set_ne (x ∷ xs) zero zero v h = absurd (h refl)
get_elem?-set_ne (x ∷ xs) zero (suc j) v h = refl
get_elem?-set_ne (x ∷ xs) (suc i) zero v h = refl
get_elem?-set_ne (x ∷ xs) (suc i) (suc j) v h = get_elem?-set_ne xs i j v (λ e. h (ap suc e))

get_elem?-set_self {ℓ} :
    {A : Type ℓ} (xs : List A) (i : ℕ) (v : A) → i < length xs → get_elem? (set xs i v) i ≡ some v
get_elem?-set_self [] i v h = absurd (omega arith)
get_elem?-set_self (x ∷ xs) zero v h = refl
get_elem?-set_self (x ∷ xs) (suc i) v h = get_elem?-set_self xs i v (omega arith)

pub All-set {ℓ κ} :
    {A : Type ℓ} (P : A → Type κ) (xs : List A) (i : ℕ) (v : A)
    → All P xs
    → P v
    → All P (set xs i v)
All-set P [] i v h p = tt
All-set P (x ∷ xs) zero v h p = (p, h.1)
All-set P (x ∷ xs) (suc i) v h p = (h.0, All-set P xs i v h.1 p)

pub All-replicate {ℓ κ} :
    {A : Type ℓ} (P : A → Type κ) (n : ℕ) (v : A) → P v → All P (replicate n v)
All-replicate P zero v p = tt
All-replicate P (suc n) v p = (p, All-replicate P n v p)

-- A row that can be stored, with the text of an id at the column `i`.
pub record IsGenerated (n i : ℕ) (t : Bytes) (row : Row) : Type 0 where
  pub full : length row ≡ n
  pub texts : AreTexts row
  pub id_text : get_elem? row i ≡ some t

place_columns-IsGenerated :
    (schema : TableSchema) (n i : ℕ) (t : Bytes) (cs : List Bytes) (vs : List LiteralValue)
    (row : Row) {row' : Row}
    → IsGenerated n i t row
    → AreLiterals vs
    → place_columns schema i cs vs row ≡ ok row'
    → IsGenerated n i t row'
unfolding place_columns
place_columns-IsGenerated schema n i t [] vs row w l e = subst (IsGenerated n i t) (cc) w
place_columns-IsGenerated schema n i t (c ∷ cs) [] row w l e = subst (IsGenerated n i t) (cc) w
place_columns-IsGenerated schema n i t (c ∷ cs) (v ∷ vs) row {row' = row'} w l e =
    elim (Option-cases (schema_find_column_index schema c)) [
      | inl f ↦ cc (rw (f, place_columns) at e)
      | inr (j, f) ↦ elim (Bool-cases (j == i)) [
        | inl g ↦ cc (rw (f, place_columns, g) at e)
        | inr g ↦
            let set_row : IsGenerated n i t (set row j v.text) = record {
              full = length-set row j v.text ∙ w.full;
              texts = All-set NoNul row j v.text w.texts l.0;
              id_text = get_elem?-set_ne row j i v.text (ground (arith, g)) ∙ w.id_text;
            } in
            place_columns-IsGenerated schema n i t cs vs (set row j v.text) set_row l.1
              (rw (f, place_columns, g) at e)
      ]
    ]

-- A row that is built has a value for each column, and the decimal text of the id at its column.
pub build_insert_row-IsGenerated :
    (schema : TableSchema) (i : ℕ) (stmt : InsertStatement) (id : ℕ) {row : Row}
    → i < length schema.columns
    → AreLiterals stmt.values
    → build_insert_row_with_generated_id schema i stmt id ≡ ok row
    → IsGenerated (length schema.columns) i (print_u64 id) row
unfolding build_insert_row_with_generated_id
build_insert_row-IsGenerated schema i stmt id {row} h l e =
    let n = length schema.columns in
    let digits = FromZero-NoNul (print_u64 id) (print_u64-FromZero id) in
    elim (Bool-cases (length stmt.columns == 0)) [
      | inl z ↦
          let same : place_values n 0 i (print_u64 id) stmt.values ≡ row = cc (rw z at e) in
          let made : IsGenerated n i (print_u64 id)
              (place_values n 0 i (print_u64 id) stmt.values) =
            record {
              full = length-place_values n 0 i (print_u64 id) stmt.values;
              texts = place_values-AreTexts n 0 i (print_u64 id) stmt.values digits l;
              id_text = get_elem?-place_values n 0 i i (print_u64 id) stmt.values (omega arith) h;
            } in
          subst (IsGenerated n i (print_u64 id)) same made
      | inr z ↦
          let blank : Row = replicate n [] in
          let full : length blank ≡ n = length-replicate n [] in
          let made : IsGenerated n i (print_u64 id) (set blank i (print_u64 id)) = record {
            full = length-set blank i (print_u64 id) ∙ full;
            texts = All-set NoNul blank i (print_u64 id) (All-replicate NoNul n [] tt) digits;
            id_text = get_elem?-set_self blank i (print_u64 id) (rw full h);
          } in
          place_columns-IsGenerated schema n i (print_u64 id) stmt.columns stmt.values _ made l
            (rw z at e)
    ]

-- The id's text is the same when the row is read back.
pub get_elem?-strip_last :
    (row : Row) (i n : ℕ)
    → get_elem? row i ≡ some (print_u64 n)
    → get_elem? (strip_last row) i ≡ some (print_u64 n)
get_elem?-strip_last [] i n e = cc
get_elem?-strip_last (v ∷ []) zero n e =
    let same : v ≡ print_u64 n = cc in
    rw (same, FromZero-strip_cr (print_u64 n) (print_u64-FromZero n)) refl
get_elem?-strip_last (v ∷ []) (suc i) n e = cc
get_elem?-strip_last (v ∷ w ∷ vs) zero n e = e
get_elem?-strip_last (v ∷ w ∷ vs) (suc i) n e = get_elem?-strip_last (w ∷ vs) i n e
