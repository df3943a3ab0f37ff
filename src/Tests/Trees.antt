-- ===== src/Tests/Trees.antt =====
-- A small tree of src/bptree.c, and ids of src/runtime.c.
use threaded_db_api_server.Prelude.{
  false, ℕ, ◌+◌, ◌≡◌, ◌≤◌, ◌<◌, ◌↔◌, refl, true, none, some, [], ◌∷◌, arith, ◌==◌, if◌then◌else◌,
}
use threaded_db_api_server.Prelude.Bytes.{codes}
use threaded_db_api_server.Ids.{u64_max, print_u64, parse_canonical_positive_uint64}
use threaded_db_api_server.Ids.RoundTrip.{parse_canonical_iff}
use threaded_db_api_server.BpTree.{
  leaf, BpTree, bptree_insert, bptree_search, insert_node, insert_at_leaf, insert_into_leaf,
}
use threaded_db_api_server.BpTree.Tree.{
  IsTree, bptree_insert-IsTree, bptree_search-bptree_insert, bptree_insert-eq-none_iff,
}
use threaded_db_api_server.BpTree.Validate.{bptree_validate}
use threaded_db_api_server.BpTree.Validate.Shape.{IsSearchRoot}
use threaded_db_api_server.BpTree.Validate.Exact.{bptree_validate_iff}

abbrev one_key : BpTree
one_key = record { root = some (leaf ((5, 0) ∷ [])); key_count = 1 }

abbrev two_keys : BpTree
two_keys = record { root = some (leaf ((5, 0) ∷ (7, 12) ∷ [])); key_count = 2 }

one_key-IsTree : IsTree one_key
one_key-IsTree = (0, ((omega arith, omega arith, tt), omega arith, omega arith), refl)

one_to_two : bptree_insert one_key 7 12 ≡ some two_keys
unfolding bptree_insert insert_node insert_at_leaf insert_into_leaf
one_to_two = refl

bptree_search-bptree_insert_example :
    bptree_search two_keys 5 ≡ (if 7 == 5 then some 12 else bptree_search one_key 5)
bptree_search-bptree_insert_example =
    bptree_search-bptree_insert one_key 7 12 one_key-IsTree (omega arith) 5 one_to_two

bptree_insert-IsTree_example : IsTree two_keys × (2 ≡ 1 + 1)
bptree_insert-IsTree_example =
    bptree_insert-IsTree one_key 7 12 one_key-IsTree (omega arith) one_to_two

bptree_insert-eq-none_iff_example :
    (bptree_insert one_key 5 9 ≡ none) ↔ ((o : ℕ) × (bptree_search one_key 5 ≡ some o))
bptree_insert-eq-none_iff_example =
    bptree_insert-eq-none_iff one_key 5 9 one_key-IsTree (omega arith)

bptree_validate_iff_example :
    (bptree_validate two_keys ≡ true) ↔ IsSearchRoot two_keys.root two_keys.key_count
bptree_validate_iff_example = bptree_validate_iff two_keys

-- two keys in the wrong order
wrong_order :
    bptree_validate (record { root = some (leaf ((7, 0) ∷ (5, 12) ∷ [])); key_count = 2 }) ≡ false
unfolding bptree_validate
wrong_order = refl

parse_canonical_iff_example :
    (parse_canonical_positive_uint64 (codes "42") ≡ some 42)
    ↔ ((codes "42" ≡ print_u64 42) × (0 < 42) × (42 ≤ u64_max))
parse_canonical_iff_example = parse_canonical_iff (codes "42") 42
