-- ===== src/Runtime/Build.antt =====
-- src/runtime.c: the index that is rebuilt from a table's file.
use threaded_db_api_server.Prelude.{
  ℕ, ◌+◌, ◌≤◌, ◌≡◌, ◌≢◌, refl, subst, false, Option, none, some, List, [], ◌∷◌, ◌++◌, length,
  get_elem?, arith, Option-cases, inl, inr, append_assoc, append-nil,
}
use threaded_db_api_server.Prelude.Bytes.{Bytes}
use threaded_db_api_server.Errors.{Status, index_error, ok, err}
use threaded_db_api_server.Disk.{Disk}
use threaded_db_api_server.Ids.{u64_max, parse_canonical_positive_uint64}
use threaded_db_api_server.Schema.{TableSchema}
use threaded_db_api_server.Storage.Fields.{Row}
use threaded_db_api_server.Storage.Table.{
  Signal, proceed, stop, failed, Scanned, finished, broken, out_of_fuel,
}
use threaded_db_api_server.Storage.Table.Scan.{HasRows, fold_rows, scan-HasRows, scan_ends}
use threaded_db_api_server.BpTree.{BpTree, bptree_init, bptree_insert}
use threaded_db_api_server.Runtime.{
  IdIndexBuildState, parse_stored_id_value, note_id, index_id, index_text, build_id_index_callback,
  finish_index, build_id_index_for_table,
}
use threaded_db_api_server.Runtime.Indexed.{Indexed, empty, add, id_range}

-- The state stands for the rows it was handed.
abbrev pub Stands : ℕ → List (ℕ × Row) → IdIndexBuildState → Type 0
Stands i rows st =
    Indexed i rows st.tree st.max_id × (st.saw_row ≡ false → st.max_id ≡ 0) × (st.max_id ≤ u64_max)

abbrev Noted : ℕ → List (ℕ × Row) → Signal IdIndexBuildState → Type 0
Noted i rows (proceed st) = Stands i rows st
Noted i rows (stop st) = ⊥
Noted i rows (failed st) = Unit

note_id-Noted :
    (i pos id : ℕ) (row : Row) (text : Bytes) (rows : List (ℕ × Row)) (st : IdIndexBuildState)
    (o : Option BpTree)
    → Stands i rows st
    → get_elem? row i ≡ some text
    → parse_canonical_positive_uint64 text ≡ some id
    → bptree_insert st.tree id pos ≡ o
    → Noted i (rows ++ ((pos, row) ∷ [])) (note_id id st o)
unfolding note_id
note_id-Noted i pos id row text rows st none w g p e = tt
note_id-Noted i pos id row text rows st (some tree) w g p e =
    let low = w.1 in
    let high = w.2 in
    let (positive, small, _) = id_range p in
    (add pos id row text w.0 g p e (ground arith) (ground arith), λ f. cc, ground arith)

index_id-Noted :
    (i pos : ℕ) (row : Row) (text : Bytes) (rows : List (ℕ × Row)) (st : IdIndexBuildState)
    (o : Option ℕ)
    → Stands i rows st
    → get_elem? row i ≡ some text
    → parse_canonical_positive_uint64 text ≡ o
    → Noted i (rows ++ ((pos, row) ∷ [])) (index_id pos st (parse_stored_id_value text))
unfolding index_id
index_id-Noted i pos row text rows st none w g p = rw (p, parse_stored_id_value) tt
index_id-Noted i pos row text rows st (some id) w g p =
    rw (p, parse_stored_id_value) (note_id-Noted i pos id row text rows st _ w g p refl)

callback-Noted :
    (i pos : ℕ) (row : Row) (rows : List (ℕ × Row)) (st : IdIndexBuildState)
    → Stands i rows st
    → Noted i (rows ++ ((pos, row) ∷ [])) (build_id_index_callback i row pos st)
unfolding build_id_index_callback index_text
callback-Noted i pos row rows st w = elim (Option-cases (get_elem? row i)) [
  | inl e ↦ rw e tt
  | inr (text, e) ↦ rw e (index_id-Noted i pos row text rows st _ w e refl)
]

fold_rows-Stands :
    (i expected : ℕ) (before rows : List (ℕ × Row)) (st : IdIndexBuildState)
    {st' : IdIndexBuildState}
    → Stands i before st
    → fold_rows (build_id_index_callback i) expected rows st ≡ finished st'
    → Stands i (before ++ rows) st'
unfolding fold_rows
fold_rows-Stands i expected before [] st {st' = st'} w e =
    let same : st ≡ st' = cc in subst (λ s. Stands i (before ++ []) s) same (rw append-nil w)
fold_rows-Stands i expected before ((pos, row) ∷ rows) st {st' = st'} w e =
    go (build_id_index_callback i row pos st)
      (λ s' v f. fold_rows-Stands i expected (before ++ ((pos, row) ∷ [])) rows s' v f)
      (callback-Noted i pos row before st w) e
  where
    go :
        (r : Signal IdIndexBuildState)
        → ((s' : IdIndexBuildState)
            → Stands i (before ++ ((pos, row) ∷ [])) s'
            → fold_rows (build_id_index_callback i) expected rows s' ≡ finished st'
            → Stands i ((before ++ ((pos, row) ∷ [])) ++ rows) st')
        → Noted i (before ++ ((pos, row) ∷ [])) r
        → (elim r [
          | proceed s' ↦ fold_rows (build_id_index_callback i) expected rows s'
          | stop s' ↦ finished s'
          | failed s' ↦ broken s'
        ])
          ≡ finished st'
        → Stands i (before ++ ((pos, row) ∷ rows)) st'
    go (proceed s') k v f =
        subst (λ rs. Stands i rs st') (append_assoc before ((pos, row) ∷ []) rows) (k s' v f)
    go (stop s') k v f = absurd v
    go (failed s') k v f = cc

-- what the end of the scan makes of a state
finish-Indexed :
    (i : ℕ) (rows : List (ℕ × Row)) (r : Scanned IdIndexBuildState) {tree : BpTree} {next_id : ℕ}
    → ((st : IdIndexBuildState) → r ≡ finished st → Stands i rows st)
    → finish_index r ≡ ok (tree, next_id)
    → (m : ℕ) × Indexed i rows tree m × (next_id ≡ m + 1) × (m + 1 ≤ u64_max)
unfolding finish_index
finish-Indexed i rows (finished st) {tree} {next_id} w e =
    let (v, low, high) = w st refl in
    let same : st.tree ≡ tree = ground arith in
    (st.max_id, rw (← same) v, ground arith, ground arith)
finish-Indexed i rows (broken st) w e = cc
finish-Indexed i rows out_of_fuel w e = cc

finish-err :
    (r : Scanned IdIndexBuildState) (e : Status)
    → r ≢ out_of_fuel
    → finish_index r ≡ err e
    → e ≡ index_error
unfolding finish_index
finish-err (finished st) e h q = ground (arith, q)
finish-err (broken st) e h q = cc
finish-err out_of_fuel e h q = absurd (h refl)

-- A rebuild that fails returns STATUS_INDEX_ERROR.
pub build_id_index-err :
    (d : Disk) (db_dir : Bytes) (schema : TableSchema) (i : ℕ) (e : Status)
    → build_id_index_for_table d db_dir schema i ≡ err e
    → e ≡ index_error
unfolding build_id_index_for_table
build_id_index-err d db_dir schema i e =
    finish-err _ e
      (scan_ends (build_id_index_callback i) (length schema.columns) d db_dir schema.table_name _)

-- If the index of a well-formed table (`HasRows`) is rebuilt, the tree holds every row's offset
-- under the row's own id, and the next id is over every id and at most UINT64_MAX.
pub build_id_index-Indexed :
    {d : Disk} {db_dir : Bytes} (schema : TableSchema) (i : ℕ) {rows : List (ℕ × Row)}
    {tree : BpTree} {next_id : ℕ}
    → HasRows d db_dir schema.table_name (length schema.columns) rows
    → build_id_index_for_table d db_dir schema i ≡ ok (tree, next_id)
    → (m : ℕ) × Indexed i rows tree m × (next_id ≡ m + 1) × (m + 1 ≤ u64_max)
unfolding build_id_index_for_table
build_id_index-Indexed schema i {rows} w e =
    let start : IdIndexBuildState = record { tree = bptree_init; max_id = 0; saw_row = false } in
    let scanned = scan-HasRows (build_id_index_callback i) (length schema.columns) start w in
    finish-Indexed i rows _
      (λ st f.
        fold_rows-Stands i (length schema.columns) [] rows start (empty, λ _. refl, omega arith) f)
      (rw scanned at e)
