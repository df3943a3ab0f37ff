-- ===== src/BpTree/Validate/Accepts.antt =====
-- src/bptree.c: `bptree_validate` accepts every well-formed tree.
use threaded_db_api_server.Prelude.{
  ℕ, zero, suc, ◌+◌, ◌≤◌, ◌<◌, ◌≡◌, refl, ap, true, Option, none, some, List, [], ◌∷◌, length,
  arith,
}
use threaded_db_api_server.BpTree.Leaf.{IsSorted}
use threaded_db_api_server.BpTree.Valid.{entries, entries_below, IsNode, AreChildren, min_keys}
use threaded_db_api_server.BpTree.Below.{entries-IsSorted}
use threaded_db_api_server.BpTree.Tree.{IsTree, IsRoot, u64_end}
use threaded_db_api_server.BpTree.{Entry, Node, leaf, internal, Children, last, more, BpTree}
use threaded_db_api_server.BpTree.Validate.{
  entry_keys, separators, increase_from, increase, in_range, proper_range, LeafDepth, check_depth,
  validate_node, validate_children, leaf_chain, leaf_chain_below, validate_chain, bptree_validate,
}

-- A flag and a bound agree with an end of a range.
abbrev AtLower : Option ℕ → ℕ → Type 0
AtLower none lo = Unit
AtLower (some l) lo = l ≡ lo

abbrev AtDepth : LeafDepth → ℕ → Type 0
AtDepth none d = Unit
AtDepth (some e) d = e ≡ d

increase_from-IsSorted :
    (p lo hi : ℕ) (es : List Entry)
    → p < lo
    → IsSorted lo hi es
    → increase_from p (entry_keys es) ≡ true
unfolding increase_from
increase_from-IsSorted p lo hi [] h s = refl
increase_from-IsSorted p lo hi ((k, o) ∷ es) h s =
    ground (arith, increase_from-IsSorted k (suc k) hi es (omega arith) s.2)

increase-IsSorted :
    (lo hi : ℕ) (es : List Entry) → IsSorted lo hi es → increase (entry_keys es) ≡ true
unfolding increase
increase-IsSorted lo hi [] s = refl
increase-IsSorted lo hi ((k, o) ∷ es) s = increase_from-IsSorted k (suc k) hi es (omega arith) s.2

in_range-IsSorted :
    (l u : Option ℕ) (lo lo' hi : ℕ) (es : List Entry)
    → AtLower l lo
    → AtLower u hi
    → lo ≤ lo'
    → IsSorted lo' hi es
    → in_range l u (entry_keys es) ≡ true
unfolding in_range
in_range-IsSorted l u lo lo' hi [] a b h s = refl
in_range-IsSorted l u lo lo' hi ((k, o) ∷ es) a b h s =
    ground (arith, in_range-IsSorted l u lo (suc k) hi es a b)

increase_from-AreChildren :
    (h p lo hi : ℕ) (cs : Children)
    → p ≤ lo
    → AreChildren h lo hi cs
    → increase_from p (separators cs) ≡ true
unfolding increase_from
increase_from-AreChildren h p lo hi (last c) b w = refl
increase_from-AreChildren h p lo hi (more c k cs) b w =
    ground (arith, increase_from-AreChildren h k k hi cs, w.1, w.3)

increase-AreChildren :
    (h lo hi : ℕ) (cs : Children) → AreChildren h lo hi cs → increase (separators cs) ≡ true
unfolding increase
increase-AreChildren h lo hi (last c) w = refl
increase-AreChildren h lo hi (more c k cs) w =
    increase_from-AreChildren h k k hi cs (omega arith) w.3

proper_range_lem :
    (l u : Option ℕ) (lo hi : ℕ) → AtLower l lo → AtLower u hi → lo < hi → proper_range l u ≡ true
unfolding proper_range
proper_range_lem none u lo hi a b h = refl
proper_range_lem (some l) none lo hi a b h = refl
proper_range_lem (some l) (some u) lo hi a b h = ground arith

check_depth_lem : (d : ℕ) (st : LeafDepth) → AtDepth st d → check_depth d st ≡ some (some d)
unfolding check_depth
check_depth_lem d none a = refl
check_depth_lem d (some e) a = ground arith

mutual
  unfolding validate_node

  validate_node-IsNode :
      (m h lo hi d d' : ℕ) (l u : Option ℕ) (st : LeafDepth) (n : Node)
      → AtLower l lo
      → AtLower u hi
      → lo < hi
      → d + h ≡ d'
      → AtDepth st d'
      → IsNode m h lo hi n
      → validate_node l u d st n ≡ some (some d')
  validate_node-IsNode m zero lo hi d d' l u st (leaf es) a b r e p w = ground (
    arith,
    increase-IsSorted lo hi es w.0,
    in_range-IsSorted l u lo lo hi es a b (omega arith) w.0,
    check_depth_lem d st,
  )
  validate_node-IsNode m (suc h) lo hi d d' l u st (leaf es) a b r e p w = absurd w
  validate_node-IsNode m zero lo hi d d' l u st (internal cs) a b r e p w = absurd w
  validate_node-IsNode m (suc h) lo hi d d' l u st (internal cs) a b r e p w = ground (
    arith,
    w.2,
    increase-AreChildren h lo hi cs w.0,
    validate_children-AreChildren h lo hi (d + 1) d' l u st cs a b r (omega arith) p w.0,
  )

  validate_children-AreChildren :
      (h lo hi d d' : ℕ) (l u : Option ℕ) (st : LeafDepth) (cs : Children)
      → AtLower l lo
      → AtLower u hi
      → lo < hi
      → d + h ≡ d'
      → AtDepth st d'
      → AreChildren h lo hi cs
      → validate_children l u d st cs ≡ some (some d')
  validate_children-AreChildren h lo hi d d' l u st (last c) a b r e p w =
      rw (proper_range_lem l u lo hi a b r)
        (validate_node-IsNode min_keys h lo hi d d' l u st c a b r e p w)
  validate_children-AreChildren h lo hi d d' l u st (more c k cs) a b r e p w =
      rw
        (
          proper_range_lem l (some k) lo k a refl w.1,
          validate_node-IsNode min_keys h lo k d d' l (some k) st c a refl w.1 e p w.0,
        )
        (validate_children-AreChildren h k hi d d' (some k) u (some d') cs refl b w.2 e refl w.3)

mutual
  unfolding leaf_chain

  pub leaf_chain-entries : (n : Node) → leaf_chain n ≡ entries n
  leaf_chain-entries (leaf es) = refl
  leaf_chain-entries (internal cs) = leaf_chain_below-entries cs

  pub leaf_chain_below-entries : (cs : Children) → leaf_chain_below cs ≡ entries_below cs
  leaf_chain_below-entries (last c) = leaf_chain-entries c
  leaf_chain_below-entries (more c k cs) = rw (leaf_chain-entries c, leaf_chain_below-entries cs)

bptree_validate-IsRoot :
    (root : Option Node) (count : ℕ)
    → IsRoot root count
    → bptree_validate (record { root = root; key_count = count }) ≡ true
unfolding bptree_validate validate_chain
bptree_validate-IsRoot none count w = rw w
bptree_validate-IsRoot (some n) count (h, w, c) = ground (
  arith,
  validate_node-IsNode 1 h 0 u64_end 0 h none none none n tt tt (omega arith) (omega arith) tt w,
  leaf_chain-entries n,
  increase-IsSorted 0 u64_end (entries n) (entries-IsSorted 1 h 0 u64_end n w),
  ap length (leaf_chain-entries n),
)

-- `bptree_validate` accepts every well-formed tree (`IsTree`).
pub bptree_validate-IsTree : (t : BpTree) → IsTree t → bptree_validate t ≡ true
bptree_validate-IsTree t w = bptree_validate-IsRoot t.root t.key_count w
