-- ===== src/Runtime/Present.antt =====
-- src/runtime.c: the tables that the cache has, before a load and behind it.
use threaded_db_api_server.Prelude.{
  ℕ, zero, suc, ◌+◌, ◌≡◌, refl, sym, ap, subst, ◌∙◌, ◌⊎◌, inl, inr, true, false, Bool-cases, Option,
  none, some, List, [], ◌∷◌, ◌++◌, length, get_elem?, set, arith,
}
use threaded_db_api_server.Prelude.Bytes.{Bytes, codes, str_eq, str_eq_iff}
use threaded_db_api_server.Errors.{Result, ok, err}
use threaded_db_api_server.Disk.{Disk}
use threaded_db_api_server.BpTree.{BpTree}
use threaded_db_api_server.Schema.{TableSchema, schema_find_column_index}
use threaded_db_api_server.Runtime.{
  TableRuntime, ExecutionContext, find_table, Loaded, cache_table, cache_indexed, unindexed,
  load_index, load_data, load_table, get_or_load_table_runtime, runtime_preload_table, preloaded,
}

-- The cache has a table of the name.
abbrev pub HasTable : Bytes → List TableRuntime → Type 0
HasTable name [] = ⊥
HasTable name (t ∷ ts) = (t.table_name ≡ name) ⊎ HasTable name ts

HasTable-append :
    (name : Bytes) (ts us : List TableRuntime) → HasTable name ts → HasTable name (ts ++ us)
HasTable-append name (t ∷ ts) us (inl e) = inl e
HasTable-append name (t ∷ ts) us (inr h) = inr (HasTable-append name ts us h)
HasTable-append name [] us h = absurd h

HasTable-last : (ts : List TableRuntime) (t : TableRuntime) → HasTable t.table_name (ts ++ t ∷ [])
HasTable-last [] t = inl refl
HasTable-last (u ∷ ts) t = inr (HasTable-last ts t)

-- A table that takes the place of one of its name.
pub HasTable-set :
    (name : Bytes) (ts : List TableRuntime) (i : ℕ) (t u : TableRuntime)
    → get_elem? ts i ≡ some t
    → u.table_name ≡ t.table_name
    → HasTable name ts
    → HasTable name (set ts i u)
HasTable-set name [] i t u e same h = h
HasTable-set name (x ∷ ts) zero t u e same (inl h) =
    let there : x ≡ t = cc e in inl (same ∙ ap (λ y. y.table_name) (sym there) ∙ h)
HasTable-set name (x ∷ ts) zero t u e same (inr h) = inr h
HasTable-set name (x ∷ ts) (suc i) t u e same (inl h) = inl h
HasTable-set name (x ∷ ts) (suc i) t u e same (inr h) = inr (HasTable-set name ts i t u e same h)

-- The loop over the cache finds a table that the cache has.
pub find_table-HasTable :
    (ts : List TableRuntime) (name : Bytes) (k : ℕ)
    → HasTable name ts
    → (i : ℕ) × (t : TableRuntime) × (find_table ts name k ≡ some (i, t))
unfolding find_table
find_table-HasTable [] name k h = absurd h
find_table-HasTable (t ∷ ts) name k h =
    go (Bool-cases (str_eq t.table_name name)) h (find_table-HasTable ts name (k + 1))
  where
    go :
        (str_eq t.table_name name ≡ true) ⊎ (str_eq t.table_name name ≡ false)
        → HasTable name (t ∷ ts)
        → (HasTable name ts
            → (i : ℕ) × (u : TableRuntime) × (find_table ts name (k + 1) ≡ some (i, u)))
        → (i : ℕ) × (u : TableRuntime) × (find_table (t ∷ ts) name k ≡ some (i, u))
    go (inl e) h ih = (k, t, rw e)
    go (inr e) (inl h) ih = absurd (cc (e, (str_eq_iff t.table_name name).1 h))
    go (inr e) (inr h) ih = let (i, u, f) = ih h in (i, u, rw e f)

-- The place that it finds.
abbrev Found : List TableRuntime → Bytes → ℕ → Option (ℕ × TableRuntime) → Type 0
Found ts name k none = Unit
Found ts name k (some (i, t)) =
    (j : ℕ) × (i ≡ k + j) × (get_elem? ts j ≡ some t) × (t.table_name ≡ name) × HasTable name ts

Found-suc :
    (t : TableRuntime) (ts : List TableRuntime) (name : Bytes) (k : ℕ)
    (o : Option (ℕ × TableRuntime))
    → Found ts name (k + 1) o
    → Found (t ∷ ts) name k o
Found-suc t ts name k none h = tt
Found-suc t ts name k (some (i, u)) (j, e, at, named, has) =
    (suc j, omega (arith, e), at, named, inr has)

find_table-Found :
    (ts : List TableRuntime) (name : Bytes) (k : ℕ) → Found ts name k (find_table ts name k)
unfolding find_table
find_table-Found [] name k = tt
find_table-Found (t ∷ ts) name k =
    go (Bool-cases (str_eq t.table_name name)) (find_table-Found ts name (k + 1))
  where
    go :
        (str_eq t.table_name name ≡ true) ⊎ (str_eq t.table_name name ≡ false)
        → Found ts name (k + 1) (find_table ts name (k + 1))
        → Found (t ∷ ts) name k (find_table (t ∷ ts) name k)
    go (inl e) ih =
        let named = (str_eq_iff t.table_name name).0 e in
        rw e (0, omega arith, refl, named, inl named)
    go (inr e) ih = rw e (Found-suc t ts name k _ ih)

-- Behind the loading of a table: where it is, and that no table has left the cache.
pub record Loads (name : Bytes) (ctx ctx' : ExecutionContext) (i : ℕ) (table : TableRuntime)
    : Type 0 where
  pub placed : get_elem? ctx'.tables i ≡ some table
  pub named : table.table_name ≡ name
  pub present : HasTable name ctx'.tables
  pub kept : (other : Bytes) → HasTable other ctx.tables → HasTable other ctx'.tables
  pub same_dir : ctx'.db_dir ≡ ctx.db_dir

abbrev pub LoadsIf : Bytes → ExecutionContext → Loaded → Type 0
LoadsIf name ctx (d, err e) = Unit
LoadsIf name ctx (d, ok (ctx', i, table)) = Loads name ctx ctx' i table

get_elem?-last :
    (ts : List TableRuntime) (t : TableRuntime) → get_elem? (ts ++ t ∷ []) (length ts) ≡ some t
get_elem?-last [] t = refl
get_elem?-last (u ∷ ts) t = get_elem?-last ts t

cache_table-LoadsIf :
    (d : Disk) (ctx : ExecutionContext) (table : TableRuntime)
    → LoadsIf table.table_name ctx (d, cache_table ctx table)
unfolding cache_table
cache_table-LoadsIf d ctx table = record {
  placed = get_elem?-last ctx.tables table;
  named = refl;
  present = HasTable-last ctx.tables table;
  kept = λ other h. HasTable-append other ctx.tables (table ∷ []) h;
  same_dir = refl;
}

cache_indexed-LoadsIf :
    (d : Disk) (ctx : ExecutionContext) (table : TableRuntime) (r : Result (BpTree × ℕ))
    → LoadsIf table.table_name ctx (d, cache_indexed ctx table r)
unfolding cache_indexed
cache_indexed-LoadsIf d ctx table (err e) = tt
cache_indexed-LoadsIf d ctx table (ok (tree, next_id)) =
    cache_table-LoadsIf d ctx
      (record table { id_index = tree; next_id = next_id; id_index_ready = true })

load_index-LoadsIf :
    (d : Disk) (ctx : ExecutionContext) (schema : TableSchema) (name : Bytes) (column : Option ℕ)
    → LoadsIf name ctx (d, load_index d ctx schema name column)
unfolding load_index
load_index-LoadsIf d ctx schema name none = cache_table-LoadsIf d ctx (unindexed schema name none)
load_index-LoadsIf d ctx schema name (some i) =
    cache_indexed-LoadsIf d ctx (unindexed schema name (some i)) _

load_data-LoadsIf :
    (ctx : ExecutionContext) (schema : TableSchema) (name : Bytes) (p : Disk × Result (Unit {0}))
    → LoadsIf name ctx (load_data ctx schema name p)
unfolding load_data
load_data-LoadsIf ctx schema name (d, err e) = tt
load_data-LoadsIf ctx schema name (d, ok u) =
    load_index-LoadsIf d ctx schema name (schema_find_column_index schema (codes "id"))

load_table-LoadsIf :
    (d : Disk) (ctx : ExecutionContext) (name : Bytes) (r : Result TableSchema)
    → LoadsIf name ctx (load_table d ctx name r)
unfolding load_table
load_table-LoadsIf d ctx name (err e) = tt
load_table-LoadsIf d ctx name (ok schema) = load_data-LoadsIf ctx schema name _

pub get_or_load-LoadsIf :
    (d : Disk) (ctx : ExecutionContext) (name : Bytes)
    → LoadsIf name ctx (get_or_load_table_runtime d ctx name)
unfolding get_or_load_table_runtime
get_or_load-LoadsIf d ctx name =
    go (find_table ctx.tables name 0) (find_table-Found ctx.tables name 0) refl
  where
    go :
        (o : Option (ℕ × TableRuntime))
        → Found ctx.tables name 0 o
        → find_table ctx.tables name 0 ≡ o
        → LoadsIf name ctx (get_or_load_table_runtime d ctx name)
    go none f e = rw (e, get_or_load_table_runtime) (load_table-LoadsIf d ctx name _)
    go (some (i, t)) (j, at, there, named, has) e =
        rw (e, get_or_load_table_runtime)
          (record {
            placed =
                subst (λ n. get_elem? ctx.tables n ≡ some t) {x = j} {y = i} (omega (arith, at))
                  there;
            named = named;
            present = has;
            kept = λ other h. h;
            same_dir = refl;
          })

-- A table of the name, at a place of the cache.
abbrev pub IsAt : List TableRuntime → Bytes → TableRuntime → Type 0
IsAt ts name t = ((j : ℕ) × (get_elem? ts j ≡ some t)) × (t.table_name ≡ name)

-- A table that the cache has is loaded by looking it up.
pub get_or_load-HasTable :
    (d : Disk) (ctx : ExecutionContext) (name : Bytes)
    → HasTable name ctx.tables
    → (i : ℕ) × (t : TableRuntime) × IsAt ctx.tables name t
      × (get_or_load_table_runtime d ctx name ≡ (d, ok (ctx, i, t)))
unfolding get_or_load_table_runtime
get_or_load-HasTable d ctx name h =
    let (i, t, e) = find_table-HasTable ctx.tables name 0 h in
    let (j, _, at, named, _) =
      subst (Found ctx.tables name 0) e (find_table-Found ctx.tables name 0) in
    (i, t, ((j, at), named), rw (e, get_or_load_table_runtime))

-- Of what a preload leaves: the tables of the cache stay, and the table is there if it succeeded.
abbrev pub Preloads :
    Bytes → ExecutionContext → Disk × ExecutionContext × Result (Unit {0}) → Type 0
Preloads name ctx (d', ctx', r) =
    ((other : Bytes) → HasTable other ctx.tables → HasTable other ctx'.tables)
    × (r ≡ ok tt → HasTable name ctx'.tables)

pub runtime_preload_table-Preloads :
    (d : Disk) (ctx : ExecutionContext) (name : Bytes)
    → Preloads name ctx (runtime_preload_table d ctx name)
unfolding runtime_preload_table
runtime_preload_table-Preloads d ctx name =
    go (get_or_load_table_runtime d ctx name) (get_or_load-LoadsIf d ctx name)
  where
    go : (l : Loaded) → LoadsIf name ctx l → Preloads name ctx (preloaded ctx l)
    go (d', err e) l = ((λ other h. h), λ p. absurd (cc p))
    go (d', ok (ctx', i, t)) l = (l.kept, λ _. l.present)
