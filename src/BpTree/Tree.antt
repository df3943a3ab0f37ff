-- ===== src/BpTree/Tree.antt =====
-- src/bptree.c: the tree as a finite map from ids to row offsets.
use threaded_db_api_server.Prelude.{
  ℕ, suc, ◌+◌, ◌^◌, ◌<◌, ◌≡◌, ◌↔◌, refl, sym, subst, ◌∙◌, ap, Option, none, some, List, [], arith,
  ◌==◌, if◌then◌else◌, length, Option-cases, inl, inr,
}
use threaded_db_api_server.BpTree.Leaf.{put, search_leaf-put, length-put}
use threaded_db_api_server.BpTree.Valid.{entries, IsNode, IsInserted}
use threaded_db_api_server.BpTree.Insert.{insert_node-IsInserted, find_leaf_node_lem}
use threaded_db_api_server.BpTree.{
  Entry, Node, key_count, search_leaf, Inserted, duplicate, done, split, insert_node, BpTree,
  bptree_insert, bptree_search, finish,
}

-- the end of the range of uint64_t
abbrev pub u64_end : ℕ
u64_end = 2 ^ 64

abbrev pub IsRoot : Option Node → ℕ → Type 0
IsRoot none count = count ≡ 0
IsRoot (some n) count = (h : ℕ) × IsNode 1 h 0 u64_end n × (count ≡ length (entries n))

-- The tree is empty, or its root has a key, the nodes below it are at least half full, and
-- `key_count` is the number of entries.
abbrev pub IsTree : BpTree → Type 0
IsTree t = IsRoot t.root t.key_count

abbrev pub root_entries : Option Node → List Entry
root_entries none = []
root_entries (some n) = entries n

-- the entries in the order of the leaf chain
abbrev pub tree_entries : BpTree → List Entry
tree_entries t = root_entries t.root

bptree_search-entries :
    (root : Option Node) (count key : ℕ)
    → IsRoot root count
    → bptree_search (record { root = root; key_count = count }) key
      ≡ search_leaf key (root_entries root)
unfolding bptree_search
bptree_search-entries none count key w = refl
bptree_search-entries (some n) count key (h, w, c) = find_leaf_node_lem 1 h 0 u64_end key n w

-- How an insertion ends: refused, the key being there, or with a tree of one more entry.
abbrev Ends : BpTree → ℕ → ℕ → Option BpTree → Type 0
Ends t key off none = (o : ℕ) × (search_leaf key (tree_entries t) ≡ some o)
Ends t key off (some t') =
    IsTree t'
    × (search_leaf key (tree_entries t) ≡ none)
    × (tree_entries t' ≡ put key off (tree_entries t))
    × (t'.key_count ≡ t.key_count + 1)

finish-Ends :
    (h count key off : ℕ) (n : Node) (r : Inserted)
    → count ≡ length (entries n)
    → IsInserted 1 h 0 u64_end key off (entries n) r
    → Ends
        (record { root = some n; key_count = count })
        key
        off
        (finish (record { root = some n; key_count = count }) r)
unfolding finish key_count
finish-Ends h count key off n duplicate c g = g
finish-Ends h count key off n (done n') c g =
    ((h, g.0, omega (arith, ap length g.2, length-put key off (entries n))), g.1, g.2, refl)
finish-Ends h count key off n (split l s r) c g = (
  (
    suc h,
    ((g.0, omega (arith, g.2), g.3, g.1), omega arith, omega arith),
    omega (arith, ap length g.5, length-put key off (entries n)),
  ),
  g.4,
  g.5,
  refl,
)

bptree_insert-Ends :
    (root : Option Node) (count key off : ℕ)
    → IsRoot root count
    → key < u64_end
    → let t : BpTree = record { root = root; key_count = count } in
      Ends t key off (bptree_insert t key off)
unfolding bptree_insert search_leaf
bptree_insert-Ends none count key off w u =
    ((0, ((omega arith, u, tt), omega arith, omega arith), refl), refl, refl, omega (arith, w))
bptree_insert-Ends (some n) count key off (h, w, c) u =
    finish-Ends h count key off n (insert_node key off n) c
      (insert_node-IsInserted 1 h 0 u64_end key off n (omega arith) w (omega arith) u)

module _ (t : BpTree) (key off : ℕ) (w : IsTree t) (u : key < u64_end) where
  ends : {r : Option BpTree} → bptree_insert t key off ≡ r → Ends t key off r
  ends e = subst (λ r. Ends t key off r) e (bptree_insert-Ends t.root t.key_count key off w u)

  -- An insertion into a well-formed tree (`IsTree`) that succeeds, its key being below 2^64,
  -- leaves a well-formed tree with one key more.
  pub bptree_insert-IsTree :
      {t' : BpTree}
      → bptree_insert t key off ≡ some t'
      → IsTree t' × (t'.key_count ≡ t.key_count + 1)
  bptree_insert-IsTree e = ((ends e).0, (ends e).3)

  -- After an insertion into a well-formed tree (`IsTree`) that succeeds, its key being below 2^64,
  -- the new key is found with its offset, and every other key is found, or not, as before.
  pub bptree_search-bptree_insert :
      {t' : BpTree} (j : ℕ)
      → bptree_insert t key off ≡ some t'
      → bptree_search t' j ≡ (if key == j then some off else bptree_search t j)
  bptree_search-bptree_insert {t'} j e =
      let g = ends e in
      bptree_search-entries t'.root t'.key_count j g.0
      ∙ ap (search_leaf j) g.2
      ∙ search_leaf-put key off j (tree_entries t) g.1
      ∙ ap (λ o. if key == j then some off else o)
          (sym (bptree_search-entries t.root t.key_count j w))

  -- The insertion of a key below 2^64 into a well-formed tree (`IsTree`) is refused exactly when
  -- the key is there already.
  pub bptree_insert-eq-none_iff :
      (bptree_insert t key off ≡ none) ↔ ((o : ℕ) × (bptree_search t key ≡ some o))
  bptree_insert-eq-none_iff = (
    λ e. ((ends e).0, bptree_search-entries t.root t.key_count key w ∙ (ends e).1),
    λ found. elim (Option-cases (bptree_insert t key off)) [
      | inl e ↦ e
      | inr (t', e) ↦ cc ((ends e).1, bptree_search-entries t.root t.key_count key w, found.1)
    ],
  )
