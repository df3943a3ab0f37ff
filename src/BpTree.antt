-- ===== src/BpTree.antt =====
-- src/bptree.c, include/bptree.h: the in-memory B+ tree from ids to row offsets.
--
-- A node is a value. `Children` holds the arrays `children` and `keys` of an internal node in the
-- order in which they interleave: children[0], keys[0], children[1], .... The parent pointers are
-- the calls under which a node is reached, so the climb from a leaf by `left->parent` is the way
-- back out of `insert_below`, and `left_child_index` is the index by which the descent chose the
-- child. The leaf chain is the leaves in order. Keys are numbers below 2^64 and offsets are
-- numbers; memory does not run out, and pointers that the callers pass are not NULL.
pub mod Leaf
pub mod Valid
pub mod Below
pub mod Insert
pub mod Tree
pub mod Validate
use mathlib.Core.Option
use threaded_db_api_server.Prelude.{
  ℕ, zero, suc, ◌+◌, ◌/◌, true, false, Option, none, some, List, [], ◌∷◌, ltb, ◌==◌, if◌then◌else◌,
  length, take, drop,
}

-- BPTREE_MAX_KEYS
abbrev pub max_keys : ℕ
max_keys = 63

-- keys[i] with row_offsets[i]
abbrev pub Entry : Type 0
Entry = ℕ × ℕ

mutual
  pub data Node : Type 0 where
    leaf : List Entry → Node
    internal : Children → Node

  pub data Children : Type 0 where
    last : Node → Children
    more : Node → ℕ → Children → Children

-- `key_count` of an internal node
pub key_count : Children → ℕ
key_count (last c) = 0
key_count (more c k cs) = suc (key_count cs)

-- the `child_index` that the loop of `find_leaf_node` ends with
pub child_index : ℕ → Children → ℕ
child_index key (last c) = 0
child_index key (more c k cs) = if ltb key k then 0 else suc (child_index key cs)

mutual
  -- `find_leaf_node`, the entries of the leaf that it reaches
  pub find_leaf_node : ℕ → Node → List Entry
  find_leaf_node key (leaf es) = es
  find_leaf_node key (internal cs) = find_leaf_below key cs

  -- one round of its loop: the child at `child_index`
  pub find_leaf_below : ℕ → Children → List Entry
  find_leaf_below key (last c) = find_leaf_node key c
  find_leaf_below key (more c k cs) =
      let here = find_leaf_node key c in
      let later = find_leaf_below key cs in if ltb key k then here else later

-- the loop of `bptree_search` over the leaf's keys
pub search_leaf : ℕ → List Entry → Option ℕ
search_leaf key [] = none
search_leaf key ((k, o) ∷ es) = if k == key then some o else search_leaf key es

-- The slot by which both leaf insertions choose their place, and the arrays with the new entry in
-- it; `none` for a key that is there already.
unfoldable pub insert_into_leaf : ℕ → ℕ → List Entry → Option (List Entry)
insert_into_leaf key off [] = some ((key, off) ∷ [])
insert_into_leaf key off ((k, o) ∷ es) =
    if ltb k key
    then Option.map (λ r. (k, o) ∷ r) (insert_into_leaf key off es)
    else if k == key
    then none
    else some ((key, off) ∷ (k, o) ∷ es)

-- What an insertion below a node leaves its parent to do.
pub data Inserted : Type 0 where
  -- the key is there already: nothing is changed
  duplicate : Inserted
  -- the node stands as it is now
  done : Node → Inserted
  -- the node is split into `left` and `right`, with the separator to go up
  split : (left : Node) → (separator : ℕ) → (right : Node) → Inserted

pub first_key : List Entry → ℕ
first_key [] = 0
first_key ((k, o) ∷ es) = k

-- the two halves of the temporary arrays
pub split_entries : List Entry → Inserted
split_entries es =
    let left_count = length es / 2 in
    let right = drop left_count es in
    split (leaf (take left_count es)) (first_key right) (leaf right)

pub split_leaf_and_insert : ℕ → ℕ → List Entry → Inserted
unfolding insert_into_leaf split_entries first_key
split_leaf_and_insert key off es = elim (insert_into_leaf key off es) [
  | none ↦ duplicate
  | some es' ↦ split_entries es'
]

-- `bptree_insert` at the leaf that it found
unfoldable pub insert_at_leaf : ℕ → ℕ → List Entry → Inserted
unfolding split_leaf_and_insert
insert_at_leaf key off es =
    if ltb (length es) max_keys
    then elim (insert_into_leaf key off es) [ none ↦ duplicate | some es' ↦ done (leaf es') ]
    else split_leaf_and_insert key off es

-- children[i] = c
pub set_child : ℕ → Node → Children → Children
set_child i n (last c) = last n
set_child zero n (more c k cs) = more n k cs
set_child (suc i) n (more c k cs) = more c k (set_child i n cs)

-- the separator goes to keys[i], the right child to children[i + 1]
pub insert_into_internal_node : ℕ → ℕ → Node → Children → Children
insert_into_internal_node i s r (last c) = more c s (last r)
insert_into_internal_node zero s r (more c k cs) = more c s (more r k cs)
insert_into_internal_node (suc i) s r (more c k cs) = more c k (insert_into_internal_node i s r cs)

-- temp_children and temp_keys cut at keys[i], which goes up
pub split_at : ℕ → Children → Inserted
split_at i (last c) = done (internal (last c))
split_at zero (more c k cs) = split (internal (last c)) k (internal cs)
split_at (suc i) (more c k cs) = elim (split_at i cs) [
  | split (internal ls) p r ↦ split (internal (more c k ls)) p r
  | other ↦ other
]

-- `children` are those of the node with the split child already in its place, so that their
-- number of keys is `key_count`
pub split_internal_and_insert : Children → ℕ → ℕ → Node → Inserted
unfolding split_at insert_into_internal_node
split_internal_and_insert cs i s r =
    let total_keys = suc (key_count cs) in
    split_at (total_keys / 2) (insert_into_internal_node i s r cs)

-- `insert_into_parent` where the parent is an internal node, `left` being children[i]
pub insert_into_parent : Children → ℕ → Node → ℕ → Node → Inserted
unfolding split_internal_and_insert
insert_into_parent cs i left s right =
    let cs' = set_child i left cs in
    if ltb (key_count cs') max_keys
    then done (internal (insert_into_internal_node i s right cs'))
    else split_internal_and_insert cs' i s right

-- the node `cs` after an insertion below its child `i`
pub after_child : Children → ℕ → Inserted → Inserted
after_child cs i duplicate = duplicate
after_child cs i (done c) = done (internal (set_child i c cs))
after_child cs i (split l s r) = insert_into_parent cs i l s r

unfoldable mutual
  unfolding insert_at_leaf after_child

  -- `bptree_insert` from a node down to the leaf and back up to the node
  pub insert_node : ℕ → ℕ → Node → Inserted
  insert_node key off (leaf es) = insert_at_leaf key off es
  insert_node key off (internal cs) = after_child cs (child_index key cs) (insert_below key off cs)

  -- the insertion into the child at `child_index`
  pub insert_below : ℕ → ℕ → Children → Inserted
  insert_below key off (last c) = insert_node key off c
  insert_below key off (more c k cs) =
      let here = insert_node key off c in
      let later = insert_below key off cs in if ltb key k then here else later

-- `BPTree`; `root` is `none` for NULL
pub record BpTree : Type 0 where
  pub root : Option Node
  pub key_count : ℕ

unfoldable pub bptree_init : BpTree
bptree_init = record { root = none; key_count = 0 }

-- found with its offset, or not found; the descent always ends at a leaf
unfoldable pub bptree_search : BpTree → ℕ → Option ℕ
unfolding search_leaf find_leaf_node
bptree_search t key = elim t.root [ none ↦ none | some n ↦ search_leaf key (find_leaf_node key n) ]

-- the tree that `bptree_insert` ends with; `none` is STATUS_INDEX_ERROR for a duplicate key
pub finish : BpTree → Inserted → Option BpTree
finish t duplicate = none
finish t (done n) = some (record { root = some n; key_count = t.key_count + 1 })
-- `insert_into_parent` with `parent == NULL`
finish t (split l s r) =
    some (record { root = some (internal (more l s (last r))); key_count = t.key_count + 1 })

unfoldable pub bptree_insert : BpTree → ℕ → ℕ → Option BpTree
unfolding finish
bptree_insert t key off = elim t.root [
  | none ↦ some (record { root = some (leaf ((key, off) ∷ [])); key_count = 1 })
  | some n ↦ finish t (insert_node key off n)
]

unfoldable pub bptree_destroy : BpTree → BpTree
unfolding bptree_init
bptree_destroy tree = bptree_init
