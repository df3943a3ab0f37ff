-- ===== src/Runtime/Indexed.antt =====
-- src/runtime.c: the id index holds the offset of every row under its id.
use threaded_db_api_server.Prelude.{
  ℕ, ◌≤◌, ◌<◌, ◌≡◌, refl, ap, ◌∙◌, sym, Bool, false, Option, none, some, List, [], ◌∷◌, ◌++◌,
  if◌then◌else◌, get_elem?, ◌==◌, arith, Bool-cases, Option-cases, inl, inr,
}
use threaded_db_api_server.Prelude.Bytes.{Bytes, str_eq, str_eq_iff}
use threaded_db_api_server.Ids.{print_u64, parse_canonical_positive_uint64}
use threaded_db_api_server.Ids.RoundTrip.{parse_canonical_iff}
use threaded_db_api_server.Storage.Fields.{Row}
use threaded_db_api_server.BpTree.{BpTree, bptree_init, bptree_insert, bptree_search}
use threaded_db_api_server.BpTree.Tree.{
  IsTree, u64_end, bptree_insert-IsTree, bptree_search-bptree_insert, bptree_insert-eq-none_iff,
}

-- The tree of the rows with their offsets, the values of the id column being read as ids, all of
-- them at most `max_id`.
pub data Indexed (id_column_index : ℕ) : List (ℕ × Row) → BpTree → ℕ → Type 0 where
  empty : Indexed id_column_index [] bptree_init 0
  add :
      {rows : List (ℕ × Row)} {tree tree' : BpTree} {max_id max_id' : ℕ} (pos id : ℕ) (row : Row)
      (text : Bytes)
      → Indexed id_column_index rows tree max_id
      → get_elem? row id_column_index ≡ some text
      → parse_canonical_positive_uint64 text ≡ some id
      → bptree_insert tree id pos ≡ some tree'
      → max_id ≤ max_id'
      → id ≤ max_id'
      → Indexed id_column_index (rows ++ ((pos, row) ∷ [])) tree' max_id'

pub id_range :
    {text : Bytes} {id : ℕ}
    → parse_canonical_positive_uint64 text ≡ some id
    → (0 < id) × (id < u64_end) × (text ≡ print_u64 id)
id_range {text} {id} e = let h = (parse_canonical_iff text id).0 e in (h.1, omega (arith, h.2), h.0)

pub Indexed-IsTree :
    {i : ℕ} {rows : List (ℕ × Row)} {tree : BpTree} {m : ℕ} → Indexed i rows tree m → IsTree tree
unfolding bptree_init
Indexed-IsTree empty = refl
Indexed-IsTree (add {tree} pos id row text w g p e _ _) =
    (bptree_insert-IsTree tree id pos (Indexed-IsTree w) (id_range p).1 e).0

-- No key of the tree is over the largest id.
pub Indexed-bound :
    {i : ℕ} {rows : List (ℕ × Row)} {tree : BpTree} {m : ℕ} (k : ℕ)
    → Indexed i rows tree m
    → m < k
    → bptree_search tree k ≡ none
unfolding bptree_init bptree_search
Indexed-bound k empty h = refl
Indexed-bound k (add {tree} pos id row text w g p e up q) h =
    let other : (id == k) ≡ false = ground arith in
    bptree_search-bptree_insert tree id pos (Indexed-IsTree w) (id_range p).1 k e
    ∙ rw other (Indexed-bound k w (omega arith))

abbrev pub text_is : Bytes → Option Bytes → Bool
text_is text none = false
text_is text (some v) = str_eq v text

-- the value at `i` is the text
abbrev pub has_text : ℕ → Bytes → Row → Bool
has_text i text row = text_is text (get_elem? row i)

unfoldable pub rows_with : ℕ → Bytes → List (ℕ × Row) → List (ℕ × Row)
rows_with i text [] = []
rows_with i text (r ∷ rows) =
    let rest = rows_with i text rows in if has_text i text r.1 then r ∷ rest else rest

pub rows_with-append :
    (i : ℕ) (text : Bytes) (xs ys : List (ℕ × Row))
    → rows_with i text (xs ++ ys) ≡ rows_with i text xs ++ rows_with i text ys
unfolding rows_with
rows_with-append i text [] ys = refl
rows_with-append i text (r ∷ rows) ys = elim (Bool-cases (has_text i text r.1)) [
  | inl e ↦ rw e (ap (λ t. r ∷ t) (rows_with-append i text rows ys))
  | inr e ↦ rw e (rows_with-append i text rows ys)
]

-- What a search for an id says of the rows with the id's text.
abbrev pub Answers : ℕ → Bytes → List (ℕ × Row) → Option ℕ → Type 0
Answers i text rows none = rows_with i text rows ≡ []
Answers i text rows (some pos) = (row : Row) × (rows_with i text rows ≡ (pos, row) ∷ [])

pub rows_with-match :
    (i pos : ℕ) (text t : Bytes) (row : Row)
    → get_elem? row i ≡ some t
    → t ≡ text
    → rows_with i text ((pos, row) ∷ []) ≡ (pos, row) ∷ []
unfolding rows_with
rows_with-match i pos text t row g e = let same = (str_eq_iff t text).1 e in rw (g, same) refl

rows_with-mismatch :
    (i pos : ℕ) (text t : Bytes) (row : Row)
    → get_elem? row i ≡ some t
    → str_eq t text ≡ false
    → rows_with i text ((pos, row) ∷ []) ≡ []
unfolding rows_with
rows_with-mismatch i pos text t row g e = rw (g, e) refl

-- what the new row adds to an answer
Answers-append :
    (i : ℕ) (text : Bytes) (rows : List (ℕ × Row)) (r : ℕ × Row) (o : Option ℕ)
    → rows_with i text (r ∷ []) ≡ []
    → Answers i text rows o
    → Answers i text (rows ++ (r ∷ [])) o
Answers-append i text rows r none e a = rows_with-append i text rows (r ∷ []) ∙ rw (a, e) refl
Answers-append i text rows r (some pos) e a =
    (a.0, rows_with-append i text rows (r ∷ []) ∙ rw (a.1, e) refl)

pub absent_before :
    (tree : BpTree) (id pos : ℕ) {tree' : BpTree}
    → IsTree tree
    → id < u64_end
    → bptree_insert tree id pos ≡ some tree'
    → bptree_search tree id ≡ none
absent_before tree id pos w u e = elim (Option-cases (bptree_search tree id)) [
  | inl n ↦ n
  | inr f ↦ cc (e, (bptree_insert-eq-none_iff tree id pos w u).1 f)
]

ids_differ :
    (t text : Bytes) (id k : ℕ)
    → parse_canonical_positive_uint64 t ≡ some id
    → parse_canonical_positive_uint64 text ≡ some k
    → (id == k) ≡ false
    → str_eq t text ≡ false
ids_differ t text id k p q ne = elim (Bool-cases (str_eq t text)) [
  | inl e ↦ let same = (str_eq_iff t text).0 e in let eq : id ≡ k = cc in ground arith
  | inr e ↦ e
]

-- The index of some rows is searched for an accepted id: if nothing is found, no row has the id's
-- text, and if an offset is found, just one row has it, and stands at that offset.
pub Indexed-Answers :
    {i : ℕ} {rows : List (ℕ × Row)} {tree : BpTree} {m : ℕ} (text : Bytes) (k : ℕ)
    → Indexed i rows tree m
    → parse_canonical_positive_uint64 text ≡ some k
    → Answers i text rows (bptree_search tree k)
unfolding rows_with bptree_init bptree_search
Indexed-Answers text k empty q = refl
Indexed-Answers {i} text k (add {rows} {tree} pos id row t w g p e _ _) q =
    let tree_ok = Indexed-IsTree w in
    let range = id_range p in
    let before = Indexed-Answers text k w q in
    elim (Bool-cases (id == k)) [
      | inl same ↦
          let eq : id ≡ k = ground arith in
          let texts : t ≡ text = range.2 ∙ ap print_u64 eq ∙ sym (id_range q).2 in
          let absent = absent_before tree id pos tree_ok range.1 e in
          let search_k : bptree_search tree k ≡ none = rw (← eq) absent in
          let nothing : rows_with i text rows ≡ [] = rw search_k at before in
          rw (bptree_search-bptree_insert tree id pos tree_ok range.1 k e, same)
            (
              row,
              rows_with-append i text rows ((pos, row) ∷ [])
                  ∙ rw (rows_with-match i pos text t row g texts, nothing) refl,
            )
      | inr other ↦
          rw (bptree_search-bptree_insert tree id pos tree_ok range.1 k e, other)
            (Answers-append i text rows (pos, row) (bptree_search tree k)
              (rows_with-mismatch i pos text t row g (ids_differ t text id k p q other)) before)
    ]
