-- ===== src/DbApi/Exclusion.antt =====
-- src/db_api.c: the lock in every interleaving of requests.
use threaded_db_api_server.Prelude.{
  ℕ, ◌≡◌, refl, ap, subst, true, false, some, get_elem?, set, arith,
}
use threaded_db_api_server.Prelude.Bytes.{Bytes}
use threaded_db_api_server.Runtime.{ExecutionContext}
use threaded_db_api_server.Runtime.Present.{HasTable}
use threaded_db_api_server.DbApi.{DbApi, lock_error}
use threaded_db_api_server.DbApi.Turns.{
  Phase, preloaded, reading, replied, IsLocking, locks_first, locks_again, System, Step, arrives,
  turns, lock_fails, Reach, here, next,
}
use threaded_db_api_server.DbApi.Counts.{
  bit, writes, reads, IsServed, IsGuarded, total-set, total-get, All-set, All-get, All-map,
}
use threaded_db_api_server.DbApi.Fair.{IsFair, IfSome, IsHolding, turn-IsFair}

IsServed-mono :
    (ctx ctx' : ExecutionContext)
    → ((name : Bytes) → HasTable name ctx.tables → HasTable name ctx'.tables)
    → (p : Phase) → IsServed ctx p
    → IsServed ctx' p
IsServed-mono ctx ctx' kept (preloaded stmt) h = kept stmt.table_name h
IsServed-mono ctx ctx' kept (reading stmt) h = kept stmt.table_name h
IsServed-mono ctx ctx' kept _ h = tt

IsGuarded-IsHolding :
    (s : System) (i : ℕ) (p : Phase)
    → IsGuarded s
    → get_elem? s.requests i ≡ some p
    → IsHolding s.api p
IsGuarded-IsHolding s i p g e = record {
  writer = omega (arith, total-get writes s.requests i p e, g.writers);
  reader = omega (arith, total-get reads s.requests i p e, g.readers);
  exclusive = g.exclusive;
  served = All-get (IsServed s.api.ctx) s.requests i p e g.served;
}

fair_step :
    (s : System) (i : ℕ) (p p' : Phase) (api' : DbApi)
    → get_elem? s.requests i ≡ some p
    → IsGuarded s
    → IsFair s.api p (api', p')
    → IsGuarded (record { api = api'; requests = set s.requests i p' })
fair_step s i p p' api' e g f = record {
  writers = omega (arith, total-set writes s.requests i p p' e, g.writers, f.wrote);
  readers = omega (arith, total-set reads s.requests i p p' e, g.readers, f.read);
  exclusive = f.alone;
  served = All-set (IsServed api'.ctx) s.requests i p' f.serves (
      All-map (IsServed s.api.ctx) (IsServed api'.ctx) s.requests
        (IsServed-mono s.api.ctx api'.ctx f.kept) g.served);
}

refused-IsFair :
    (api : DbApi) (p : Phase)
    → (api.db_rwlock.writing ≡ true → api.db_rwlock.readers ≡ 0)
    → IsLocking p
    → IsFair api p (api, replied lock_error)
refused-IsFair api p h locks_first = record {
  wrote = refl;
  read = refl;
  alone = h;
  kept = λ name t. t;
  serves = tt;
}
refused-IsFair api p h locks_again = record {
  wrote = refl;
  read = refl;
  alone = h;
  kept = λ name t. t;
  serves = tt;
}

Step-IsGuarded : (s s' : System) → Step s s' → IsGuarded s → IsGuarded s'
Step-IsGuarded s s' (arrives sql) g = record {
  writers = omega (arith, g.writers);
  readers = omega (arith, g.readers);
  exclusive = g.exclusive;
  served = (tt, g.served);
}
Step-IsGuarded s s' (turns {p} {p'} {api'} i e t) g =
    fair_step s i p p' api' e g
      (subst (IfSome (IsFair s.api p)) t (turn-IsFair s.api p (IsGuarded-IsHolding s i p g e)))
Step-IsGuarded s s' (lock_fails {p} i e l) g =
    fair_step s i p (replied lock_error) s.api e g (refused-IsFair s.api p g.exclusive l)

pub Reach-IsGuarded :
    (start : DbApi) (s : System)
    → start.db_rwlock.writing ≡ false
    → start.db_rwlock.readers ≡ 0
    → Reach start s
    → IsGuarded s
Reach-IsGuarded start s quiet unread here = record {
  writers = omega (arith, ap bit quiet);
  readers = omega (arith, unread);
  exclusive = λ e. unread;
  served = tt;
}
Reach-IsGuarded start s quiet unread (next r step) =
    Step-IsGuarded _ s step (Reach-IsGuarded start _ quiet unread r)
