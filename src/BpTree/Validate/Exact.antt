-- ===== src/BpTree/Validate/Exact.antt =====
-- src/bptree.c: what `bptree_validate` accepts, and that it accepts nothing else.
use threaded_db_api_server.Prelude.{
  ℕ, ◌≡◌, ◌↔◌, ap, true, Option, none, some, length, ◌==◌, Option-cases, inl, inr, arith,
}
use threaded_db_api_server.BpTree.Valid.{entries}
use threaded_db_api_server.BpTree.{Node, BpTree}
use threaded_db_api_server.BpTree.Validate.{
  entry_keys, increase, validate_node, leaf_chain, validate_chain, bptree_validate,
}
use threaded_db_api_server.BpTree.Validate.Accepts.{leaf_chain-entries}
use threaded_db_api_server.BpTree.Validate.Shape.{IsSearchRoot}
use threaded_db_api_server.BpTree.Validate.Rejects.{both_true, validate_node-Checked}
use threaded_db_api_server.BpTree.Validate.Passes.{AreSorted-increase, IsSearch-validate_node}
use threaded_db_api_server.BpTree.Validate.Chain.{entries-AreSorted}

root_iff :
    (root : Option Node) (count : ℕ)
    → (bptree_validate (record { root = root; key_count = count }) ≡ true) ↔ IsSearchRoot root count
unfolding bptree_validate validate_chain
root_iff none count = ((λ e. ground (arith, e)), λ e. ground (arith, e))
root_iff (some n) count = (accepts, back)
  where
    accepts :
        bptree_validate (record { root = some n; key_count = count }) ≡ true
        → IsSearchRoot (some n) count
    accepts e = elim (Option-cases (validate_node none none 0 none n)) [
      | inl f ↦ cc (rw (f, bptree_validate) at e)
      | inr (st, f) ↦
          let chain : validate_chain count (leaf_chain n) ≡ true = rw (f, bptree_validate) at e in
          let (_, counted) =
            both_true (increase (entry_keys (leaf_chain n))) (length (leaf_chain n) == count)
              chain in
          let (h, w, _, _) = validate_node-Checked none none 0 none n f in
          ((h, w), ground (arith, counted, ap length (leaf_chain-entries n)))
    ]

    back :
        IsSearchRoot (some n) count
        → bptree_validate (record { root = some n; key_count = count }) ≡ true
    back ((h, w), c) =
        let found = IsSearch-validate_node h none none 0 h none n w (omega arith) tt in
        rw (found, bptree_validate)
          (rw
            (
              leaf_chain-entries n,
              AreSorted-increase none none (entries n) (entries-AreSorted h none none n w),
            )
            (ground (arith, c)))

-- `bptree_validate` accepts a tree exactly when it is of the shape `IsSearchRoot`: the keys of
-- each leaf increase strictly and lie in the range that the separators above leave it, no range is
-- empty, all leaves have one depth, no node has more than BPTREE_MAX_KEYS keys, and the count is
-- that of the entries. The empty tree is accepted with the count 0.
pub bptree_validate_iff :
    (t : BpTree) → (bptree_validate t ≡ true) ↔ IsSearchRoot t.root t.key_count
bptree_validate_iff t = root_iff t.root t.key_count
