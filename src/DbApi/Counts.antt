-- ===== src/DbApi/Counts.antt =====
-- The requests of src/db_api.c that hold the lock, counted.
use threaded_db_api_server.Prelude.{
  ℕ, zero, suc, ◌+◌, ◌≤◌, ◌≡◌, ap, subst, Bool, true, false, some, List, [], ◌∷◌, get_elem?, set,
  All, arith,
}
use threaded_db_api_server.Runtime.{ExecutionContext}
use threaded_db_api_server.Runtime.Present.{HasTable}
use threaded_db_api_server.DbApi.Turns.{Phase, preloading, preloaded, reading, inserting, System}

abbrev pub bit : Bool → ℕ
bit true = 1
bit false = 0

-- Holds the lock for writing, and for reading.
abbrev pub writes : Phase → ℕ
writes (preloading stmt) = 1
writes (inserting stmt) = 1
writes _ = 0

abbrev pub reads : Phase → ℕ
reads (reading stmt) = 1
reads _ = 0

abbrev pub total : (Phase → ℕ) → List Phase → ℕ
total f [] = 0
total f (p ∷ ps) = f p + total f ps

-- The table of a SELECT behind its preload is in the cache.
abbrev pub IsServed : ExecutionContext → Phase → Type 0
IsServed ctx (preloaded stmt) = HasTable stmt.table_name ctx.tables
IsServed ctx (reading stmt) = HasTable stmt.table_name ctx.tables
IsServed ctx _ = Unit

pub record IsGuarded (s : System) : Type 0 where
  pub writers : total writes s.requests ≡ bit s.api.db_rwlock.writing
  pub readers : total reads s.requests ≡ s.api.db_rwlock.readers
  pub exclusive : s.api.db_rwlock.writing ≡ true → s.api.db_rwlock.readers ≡ 0
  pub served : All (IsServed s.api.ctx) s.requests

pub total-set :
    (f : Phase → ℕ) (ps : List Phase) (i : ℕ) (p p' : Phase)
    → get_elem? ps i ≡ some p
    → total f (set ps i p') + f p ≡ total f ps + f p'
total-set f [] i p p' e = absurd (cc e)
total-set f (q ∷ ps) zero p p' e = let same : q ≡ p = cc e in omega (arith, ap f same)
total-set f (q ∷ ps) (suc i) p p' e = omega (arith, total-set f ps i p p' e)

pub total-get :
    (f : Phase → ℕ) (ps : List Phase) (i : ℕ) (p : Phase)
    → get_elem? ps i ≡ some p
    → f p ≤ total f ps
total-get f [] i p e = absurd (cc e)
total-get f (q ∷ ps) zero p e = let same : q ≡ p = cc e in omega (arith, ap f same)
total-get f (q ∷ ps) (suc i) p e = omega (arith, total-get f ps i p e)

module _ {ℓ κ} {A : Type ℓ} (P : A → Type κ) where
  pub All-set : (xs : List A) (i : ℕ) (x : A) → P x → All P xs → All P (set xs i x)
  All-set [] i x h hs = hs
  All-set (y ∷ xs) zero x h hs = (h, hs.1)
  All-set (y ∷ xs) (suc i) x h hs = (hs.0, All-set xs i x h hs.1)

  pub All-get : (xs : List A) (i : ℕ) (x : A) → get_elem? xs i ≡ some x → All P xs → P x
  All-get [] i x e hs = absurd (cc e)
  All-get (y ∷ xs) zero x e hs = let same : y ≡ x = cc e in subst P same hs.0
  All-get (y ∷ xs) (suc i) x e hs = All-get xs i x e hs.1

pub All-map {ℓ κ μ} :
    {A : Type ℓ} (P : A → Type κ) (Q : A → Type μ) (xs : List A)
    → ((a : A) → P a → Q a)
    → All P xs
    → All Q xs
All-map P Q [] f hs = tt
All-map P Q (x ∷ xs) f hs = (f x hs.0, All-map P Q xs f hs.1)
