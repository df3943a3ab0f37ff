-- ===== src/BpTree/Valid.antt =====
-- src/bptree.c: what makes a tree well formed, and that `bptree_insert` keeps it.
use threaded_db_api_server.Prelude.{
  length-take, length-drop, take-append-drop, ltb→le, ℕ, zero, suc, ◌/◌, ◌≤◌, ◌<◌, ◌≡◌, refl, ◌∙◌,
  none, some, List, ◌++◌, arith, ltb, length, Bool-cases, Option-cases, inl, inr,
}
use threaded_db_api_server.BpTree.Leaf.{
  IsSorted, put, IsSorted-Cut, insert_into_leaf_lem, IsSorted-put, length-put,
}
use threaded_db_api_server.BpTree.{
  Entry, Node, leaf, internal, Children, last, more, key_count, max_keys, search_leaf, Inserted,
  duplicate, done, split, insert_at_leaf, split_entries, split_leaf_and_insert,
}

-- BPTREE_MAX_KEYS / 2, which every node but the root holds at least
abbrev pub min_keys : ℕ
min_keys = 31

abbrev mutual
  -- the leaf chain: all entries in the order of the leaves
  pub entries : Node → List Entry
  entries (leaf es) = es
  entries (internal cs) = entries_below cs

  pub entries_below : Children → List Entry
  entries_below (last c) = entries c
  entries_below (more c k cs) = entries c ++ entries_below cs

abbrev mutual
  -- A node of height `h` with at least `m` keys: every key below it is at least `lo` and less
  -- than `hi`, keys increase, separators part the children, all leaves have one depth, and no node
  -- has more than BPTREE_MAX_KEYS keys.
  pub IsNode : ℕ → ℕ → ℕ → ℕ → Node → Type 0
  IsNode m zero lo hi (leaf es) = IsSorted lo hi es × (m ≤ length es) × (length es ≤ max_keys)
  IsNode m (suc h) lo hi (leaf es) = ⊥
  IsNode m zero lo hi (internal cs) = ⊥
  IsNode m (suc h) lo hi (internal cs) =
      AreChildren h lo hi cs × (m ≤ key_count cs) × (key_count cs ≤ max_keys)

  pub AreChildren : ℕ → ℕ → ℕ → Children → Type 0
  AreChildren h lo hi (last c) = IsNode min_keys h lo hi c
  AreChildren h lo hi (more c k cs) =
      IsNode min_keys h lo k c × (lo < k) × (k < hi) × AreChildren h k hi cs

-- What an insertion below a node with the entries `old` comes to.
abbrev pub IsInserted : ℕ → ℕ → ℕ → ℕ → ℕ → ℕ → List Entry → Inserted → Type 0
IsInserted m h lo hi key off old duplicate = (o : ℕ) × (search_leaf key old ≡ some o)
IsInserted m h lo hi key off old (done n) =
    IsNode m h lo hi n × (search_leaf key old ≡ none) × (entries n ≡ put key off old)
IsInserted m h lo hi key off old (split l s r) =
    IsNode min_keys h lo s l
    × IsNode min_keys h s hi r
    × (lo < s)
    × (s < hi)
    × (search_leaf key old ≡ none)
    × (entries l ++ entries r ≡ put key off old)

split_entries-IsInserted :
    (m lo hi key off : ℕ) (old es : List Entry)
    → IsSorted lo hi es
    → length es ≡ suc max_keys
    → search_leaf key old ≡ none
    → es ≡ put key off old
    → IsInserted m zero lo hi key off old (split_entries es)
unfolding split_entries
split_entries-IsInserted m lo hi key off old es s e n p =
    let half : length es / 2 ≡ 32 = omega arith in
    rw half (
      let c = IsSorted-Cut lo hi 32 es (omega arith) s in
      let b = c.above in
      (
        (c.left, omega (arith, length-take 32 es), omega (arith, length-take 32 es)),
        (c.right, omega (arith, length-drop 32 es), omega (arith, length-drop 32 es)),
        omega arith,
        c.below,
        n,
        take-append-drop 32 es ∙ p,
      ))

pub insert_at_leaf-IsInserted :
    (m lo hi key off : ℕ) (es : List Entry)
    → m ≤ min_keys
    → IsNode m zero lo hi (leaf es)
    → lo ≤ key
    → key < hi
    → IsInserted m zero lo hi key off es (insert_at_leaf key off es)
unfolding insert_at_leaf split_leaf_and_insert
insert_at_leaf-IsInserted m lo hi key off es hm (s, a, b) l u =
    elim (Option-cases (search_leaf key es)) [
      | inr (o, e) ↦ ground (arith, e, insert_into_leaf_lem key off es lo hi s)
      | inl e ↦ elim (Bool-cases (ltb (length es) max_keys)) [
        | inl small ↦ ground (
          arith,
          e,
          insert_into_leaf_lem key off es lo hi s,
          IsSorted-put key off es lo hi s l u e,
          length-put key off es,
        )
        | inr full ↦
            rw (full, split_leaf_and_insert, insert_into_leaf_lem key off es lo hi s, e)
              (split_entries-IsInserted m lo hi key off es (put key off es)
                (IsSorted-put key off es lo hi s l u e)
                (omega (arith, ltb→le _ _ full, length-put key off es)) e refl)
      ]
    ]
