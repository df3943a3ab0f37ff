-- ===== src/DbApi/Serves.antt =====
-- src/db_api.c: the turns of requests that hold the lock or wait for it.
use threaded_db_api_server.Prelude.{
  ℕ, zero, suc, ◌+◌, ◌≤◌, ◌≡◌, ◌≢◌, ◌⊎◌, inl, inr, refl, ap, Bool, true, false, Bool-cases, some,
  List, [], ◌∷◌, ◌==◌, ==_iff, get_elem?, All, arith,
}
use threaded_db_api_server.Prelude.Bytes.{Bytes}
use threaded_db_api_server.Disk.{Disk}
use threaded_db_api_server.Runtime.{TableRuntime}
use threaded_db_api_server.Executor.{SelectStatement}
use threaded_db_api_server.Executor.Select.{select_from}
use threaded_db_api_server.Executor.Insert.Cached.{execute_statement-HasTable}
use threaded_db_api_server.DbApi.{DbApi, engine_reply, db_api_init}
use threaded_db_api_server.DbApi.Turns.{
  Phase, waiting, preloading, preloaded, reading, inserting, replied, Turn, take_turn,
  after_execute, lock_phase, read_unlock, write_lock, read_lock, System, Reach,
}
use threaded_db_api_server.DbApi.Counts.{
  bit, writes, reads, total, total-get, IsServed, IsGuarded, All-get,
}
use threaded_db_api_server.DbApi.Exclusion.{Reach-IsGuarded}

-- The system that `db_api_init` starts.
init-IsGuarded :
    (disk : Disk) (db_dir : Bytes) (s : System) → Reach (db_api_init disk db_dir) s → IsGuarded s
unfolding db_api_init
init-IsGuarded disk db_dir s r = Reach-IsGuarded (db_api_init disk db_dir) s refl refl r

total-pair :
    (f : Phase → ℕ) (ps : List Phase) (i j : ℕ) (p q : Phase)
    → i ≢ j
    → get_elem? ps i ≡ some p
    → get_elem? ps j ≡ some q
    → f p + f q ≤ total f ps
total-pair f [] i j p q ne e h = absurd (cc e)
total-pair f (x ∷ ps) zero zero p q ne e h = absurd (ne refl)
total-pair f (x ∷ ps) zero (suc j) p q ne e h =
    let same : x ≡ p = cc e in omega (arith, ap f same, total-get f ps j q h)
total-pair f (x ∷ ps) (suc i) zero p q ne e h =
    let same : x ≡ q = cc h in omega (arith, ap f same, total-get f ps i p e)
total-pair f (x ∷ ps) (suc i) (suc j) p q ne e h =
    omega (arith, total-pair f ps i j p q (λ s. ne (ap suc s)) e h)

bit-le : (b : Bool) → bit b ≤ 1
bit-le true = omega arith
bit-le false = omega arith

bit-true : (b : Bool) → 1 ≤ bit b → b ≡ true
bit-true true h = refl
bit-true false h = absurd (omega arith)

-- In every state that requests to a freshly made database can reach, in whatever order they take
-- their turns, come in or fail to lock, while one request holds the lock for writing no other
-- holds it, for writing or for reading.
pub write_lock-exclusive :
    (disk : Disk) (db_dir : Bytes) (s : System) (i j : ℕ) (p q : Phase)
    → Reach (db_api_init disk db_dir) s
    → i ≢ j
    → get_elem? s.requests i ≡ some p
    → get_elem? s.requests j ≡ some q
    → writes p ≡ 1
    → (writes q ≡ 0) × (reads q ≡ 0)
write_lock-exclusive disk db_dir s i j p q r ne e h w =
    let g = init-IsGuarded disk db_dir s r in
    let held = total-pair writes s.requests i j p q ne e h in
    let one = bit-le s.api.db_rwlock.writing in
    let writing = bit-true s.api.db_rwlock.writing (omega (arith, held, g.writers, w)) in
    (
      omega (arith, held, g.writers, one, w),
      omega (arith, total-get reads s.requests j q h, g.readers, g.exclusive writing),
    )

-- In every state that requests to a freshly made database can reach, a SELECT that holds the read
-- lock finds a table of the name that it asks for at some place of the cache: its turn answers
-- with the SELECT on that table, and changes neither the files nor the cache, only the count of
-- readers.
pub reading-only_reads :
    (disk : Disk) (db_dir : Bytes) (s : System) (i : ℕ) (stmt : SelectStatement)
    → Reach (db_api_init disk db_dir) s
    → get_elem? s.requests i ≡ some (reading stmt)
    → (t : TableRuntime) × (j : ℕ) × (get_elem? s.api.ctx.tables j ≡ some t)
      × (t.table_name ≡ stmt.table_name)
      × (take_turn s.api (reading stmt)
          ≡ some
              (read_unlock s.api, replied (engine_reply (select_from s.api.disk s.api.ctx t stmt))))
unfolding take_turn
reading-only_reads disk db_dir s i stmt r e =
    let g = init-IsGuarded disk db_dir s r in
    let served = All-get (IsServed s.api.ctx) s.requests i (reading stmt) e g.served in
    let (t, ((j, at), named), same) = execute_statement-HasTable s.api.disk s.api.ctx stmt served in
    (t, j, at, named, ap (λ r. some (after_execute read_unlock s.api r)) same)

find_one :
    (f : Phase → ℕ) (ps : List Phase)
    → 1 ≤ total f ps
    → (i : ℕ) × (p : Phase) × (get_elem? ps i ≡ some p) × (1 ≤ f p)
find_one f [] h = absurd (omega arith)
find_one f (p ∷ ps) h =
    elim (f p)
        as (λ n. f p ≡ n → (i : ℕ) × (q : Phase) × (get_elem? (p ∷ ps) i ≡ some q) × (1 ≤ f q)) [
          | zero ↦
              λ e. let (i, q, at, one) = find_one f ps (omega (arith, h, e)) in (suc i, q, at, one)
          | suc n ↦ λ e. (0, p, refl, omega (arith, e))
        ]
      refl

abbrev pub IsReplied : Phase → Type 0
IsReplied (replied reply) = Unit
IsReplied _ = ⊥

writer_turns : (s : System) (p : Phase) → 1 ≤ writes p → (t : Turn) × (take_turn s.api p ≡ some t)
unfolding take_turn
writer_turns s (preloading stmt) h = (_, refl)
writer_turns s (inserting stmt) h = (_, refl)
writer_turns s _ h = absurd (omega arith)

reader_turns : (s : System) (p : Phase) → 1 ≤ reads p → (t : Turn) × (take_turn s.api p ≡ some t)
unfolding take_turn
reader_turns s (reading stmt) h = (_, refl)
reader_turns s _ h = absurd (omega arith)

-- Where nobody holds the lock, only an answered request has no turn.
free_turns :
    (s : System) (p : Phase)
    → s.api.db_rwlock.writing ≡ false
    → s.api.db_rwlock.readers ≡ 0
    → IsReplied p ⊎ ((t : Turn) × (take_turn s.api p ≡ some t))
unfolding take_turn
free_turns s (replied reply) w r = inl tt
free_turns s (waiting stmt) w r = inr ((write_lock s.api, lock_phase stmt), rw (w, r))
free_turns s (preloaded stmt) w r = inr ((read_lock s.api, reading stmt), rw w)
free_turns s _ w r = inr (_, refl)

-- A request among `ps` that can take its turn.
abbrev pub SomeTurn : DbApi → List Phase → Type 0
SomeTurn api ps =
    (i : ℕ) × (p : Phase) × (t : Turn) × (get_elem? ps i ≡ some p) × (take_turn api p ≡ some t)

free_SomeTurn :
    (s : System) (ps : List Phase)
    → s.api.db_rwlock.writing ≡ false
    → s.api.db_rwlock.readers ≡ 0
    → All IsReplied ps ⊎ SomeTurn s.api ps
free_SomeTurn s [] w r = inl tt
free_SomeTurn s (p ∷ ps) w r = go (free_turns s p w r) (free_SomeTurn s ps w r)
  where
    go :
        IsReplied p ⊎ ((t : Turn) × (take_turn s.api p ≡ some t))
        → All IsReplied ps ⊎ SomeTurn s.api ps
        → All IsReplied (p ∷ ps) ⊎ SomeTurn s.api (p ∷ ps)
    go (inr (t, e)) _ = inr (0, p, t, refl, e)
    go (inl h) (inl hs) = inl (h, hs)
    go (inl h) (inr (i, q, t, at, e)) = inr (suc i, q, t, at, e)

abbrev pub CanTurn : System → Type 0
CanTurn s = SomeTurn s.api s.requests

holder_SomeTurn :
    (s : System) (f : Phase → ℕ)
    → ((p : Phase) → 1 ≤ f p → (t : Turn) × (take_turn s.api p ≡ some t))
    → 1 ≤ total f s.requests
    → SomeTurn s.api s.requests
holder_SomeTurn s f turn h =
    let (i, p, at, one) = find_one f s.requests h in let (t, e) = turn p one in (i, p, t, at, e)

-- In every state that requests to a freshly made database can reach, all requests are answered or
-- some request can take its turn: no request waits for a lock that nobody will let go.
pub Reach-CanTurn :
    (disk : Disk) (db_dir : Bytes) (s : System)
    → Reach (db_api_init disk db_dir) s
    → All IsReplied s.requests ⊎ CanTurn s
Reach-CanTurn disk db_dir s r =
    go (init-IsGuarded disk db_dir s r) (Bool-cases s.api.db_rwlock.writing)
      (Bool-cases (s.api.db_rwlock.readers == 0))
  where
    go :
        IsGuarded s
        → (s.api.db_rwlock.writing ≡ true) ⊎ (s.api.db_rwlock.writing ≡ false)
        → ((s.api.db_rwlock.readers == 0) ≡ true) ⊎ ((s.api.db_rwlock.readers == 0) ≡ false)
        → All IsReplied s.requests ⊎ CanTurn s
    go g (inl w) _ =
        inr (holder_SomeTurn s writes (writer_turns s) (omega (arith, g.writers, ap bit w)))
    go g (inr w) (inl none_read) =
        free_SomeTurn s s.requests w ((==_iff s.api.db_rwlock.readers 0).0 none_read)
    go g (inr w) (inr some_read) =
        inr (holder_SomeTurn s reads (reader_turns s) (ground (arith, g.readers, some_read)))
