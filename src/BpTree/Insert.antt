-- ===== src/BpTree/Insert.antt =====
-- src/bptree.c: `bptree_insert` keeps a tree well formed and adds exactly one entry, which
-- `bptree_search` then finds.
use threaded_db_api_server.Prelude.{
  ℕ, zero, suc, ◌/◌, ◌≤◌, ◌<◌, ◌≡◌, refl, sym, ◌∙◌, none, List, arith, ltb, Bool-cases, inl, inr,
  ltb→lt, ltb→le,
}
use threaded_db_api_server.BpTree.Leaf.{put, search_leaf-append_left, search_leaf-append_right}
use threaded_db_api_server.BpTree.Valid.{
  entries, entries_below, IsNode, AreChildren, IsInserted, min_keys, insert_at_leaf-IsInserted,
}
use threaded_db_api_server.BpTree.Below.{
  IsBelow, last-IsBelow, head-IsBelow, tail-IsBelow, IsCut, split_at-IsCut, entries-IsSorted,
  entries_below-IsSorted,
}
use threaded_db_api_server.BpTree.{
  Entry, Node, leaf, internal, Children, last, more, key_count, max_keys, search_leaf, Inserted,
  duplicate, done, split, insert_node, insert_below, child_index, set_child,
  insert_into_internal_node, insert_into_parent, split_internal_and_insert, after_child,
  find_leaf_node, find_leaf_below,
}

IsCut-IsInserted :
    (m h lo hi key off : ℕ) (old : List Entry) (cs : Children) (r : Inserted)
    → key_count cs ≡ suc max_keys
    → search_leaf key old ≡ none
    → entries_below cs ≡ put key off old
    → IsCut h lo hi 32 cs r
    → IsInserted m (suc h) lo hi key off old r
IsCut-IsInserted m h lo hi key off old cs (split (internal ls) p (internal rs)) k n e g =
    let a = g.4 in
    let b = g.5 in
    ((g.0, omega arith, omega arith), (g.1, omega arith, omega arith), g.2, g.3, n, g.6 ∙ e)
IsCut-IsInserted m h lo hi key off old cs (split (internal ls) p (leaf es)) k n e g = absurd g
IsCut-IsInserted m h lo hi key off old cs (split (leaf es) p r) k n e g = absurd g
IsCut-IsInserted m h lo hi key off old cs duplicate k n e g = absurd g
IsCut-IsInserted m h lo hi key off old cs (done n) k n' e g = absurd g

after_child-IsInserted :
    (m h lo hi key off : ℕ) (cs : Children) (i : ℕ) (r : Inserted)
    → m ≤ key_count cs
    → key_count cs ≤ max_keys
    → IsBelow h lo hi key off cs i r
    → IsInserted m (suc h) lo hi key off (entries_below cs) (after_child cs i r)
unfolding after_child insert_into_parent split_internal_and_insert
after_child-IsInserted m h lo hi key off cs i duplicate a b g = g
after_child-IsInserted m h lo hi key off cs i (done c) a b g =
    ((g.0, omega (arith, g.1), omega (arith, g.1)), g.2, g.3)
after_child-IsInserted m h lo hi key off cs i (split l s r) a b g =
    let k = g.1 in
    let k' = g.2 in
    elim (Bool-cases (ltb (key_count (set_child i l cs)) max_keys)) [
      | inl room ↦
          let room' = ltb→lt _ _ room in rw room ((g.0, omega arith, omega arith), g.3, g.4)
      | inr full ↦
          let full' = ltb→le _ _ full in
          let half : suc (key_count (set_child i l cs)) / 2 ≡ 32 = omega arith in
          rw (full, half)
            (IsCut-IsInserted m h lo hi key off (entries_below cs) _ _ (omega arith) g.3 g.4 (
              split_at-IsCut h lo hi 32 (insert_into_internal_node i s r (set_child i l cs))
                (omega arith) g.0))
    ]

mutual
  unfolding insert_node child_index

  -- Below a well-formed node the insertion either finds the key, or adds the entry in its place.
  pub insert_node-IsInserted :
      (m h lo hi key off : ℕ) (n : Node)
      → m ≤ min_keys
      → IsNode m h lo hi n
      → lo ≤ key
      → key < hi
      → IsInserted m h lo hi key off (entries n) (insert_node key off n)
  insert_node-IsInserted m zero lo hi key off (leaf es) hm w l u =
      insert_at_leaf-IsInserted m lo hi key off es hm w l u
  insert_node-IsInserted m (suc h) lo hi key off (leaf es) hm w l u = absurd w
  insert_node-IsInserted m zero lo hi key off (internal cs) hm w l u = absurd w
  insert_node-IsInserted m (suc h) lo hi key off (internal cs) hm w l u =
      after_child-IsInserted m h lo hi key off cs (child_index key cs) (insert_below key off cs) w.1
        w.2 (insert_below-IsBelow h lo hi key off cs w.0 l u)

  insert_below-IsBelow :
      (h lo hi key off : ℕ) (cs : Children)
      → AreChildren h lo hi cs
      → lo ≤ key
      → key < hi
      → IsBelow h lo hi key off cs (child_index key cs) (insert_below key off cs)
  insert_below-IsBelow h lo hi key off (last c) w l u =
      last-IsBelow h lo hi key off c (insert_node key off c)
        (insert_node-IsInserted min_keys h lo hi key off c (omega arith) w l u)
  insert_below-IsBelow h lo hi key off (more c k cs) w l u = elim (Bool-cases (ltb key k)) [
    | inl before ↦ rw before (
        head-IsBelow h lo k hi key off c cs (insert_node key off c) (ltb→lt _ _ before) w.1 w.2 w.3
          (insert_node-IsInserted min_keys h lo k key off c (omega arith) w.0 l
            (ltb→lt _ _ before)))
    | inr past ↦ rw past (
        tail-IsBelow h lo k hi key off c cs (child_index key cs) (insert_below key off cs)
          (ltb→le _ _ past) w.1 w.2 w.0
          (insert_below-IsBelow h k hi key off cs w.3 (ltb→le _ _ past) u))
  ]

mutual
  unfolding find_leaf_node

  -- The leaf that the descent reaches is the only one that can hold the key.
  pub find_leaf_node_lem :
      (m h lo hi key : ℕ) (n : Node)
      → IsNode m h lo hi n
      → search_leaf key (find_leaf_node key n) ≡ search_leaf key (entries n)
  find_leaf_node_lem m h lo hi key (leaf es) w = refl
  find_leaf_node_lem m zero lo hi key (internal cs) w = absurd w
  find_leaf_node_lem m (suc h) lo hi key (internal cs) w = find_leaf_below_lem h lo hi key cs w.0

  find_leaf_below_lem :
      (h lo hi key : ℕ) (cs : Children)
      → AreChildren h lo hi cs
      → search_leaf key (find_leaf_below key cs) ≡ search_leaf key (entries_below cs)
  find_leaf_below_lem h lo hi key (last c) w = find_leaf_node_lem min_keys h lo hi key c w
  find_leaf_below_lem h lo hi key (more c k cs) w = elim (Bool-cases (ltb key k)) [
    | inl before ↦ rw before (
        find_leaf_node_lem min_keys h lo k key c w.0
        ∙ sym (
            search_leaf-append_left k hi key (entries c) (entries_below cs)
              (entries_below-IsSorted h k hi cs w.3) (ltb→lt _ _ before)))
    | inr past ↦ rw past (
        find_leaf_below_lem h k hi key cs w.3
        ∙ sym (
            search_leaf-append_right lo k key (entries c) (entries_below cs)
              (entries-IsSorted min_keys h lo k c w.0) (ltb→le _ _ past)))
  ]
