-- ===== src/BpTree/Validate.antt =====
-- src/bptree.c: `validate_node` and `bptree_validate`, and the trees that they accept.
--
-- The checks on parent pointers and on missing children concern what a value of `Node` cannot
-- lack; all others are here. `none` is STATUS_INDEX_ERROR.
pub mod Accepts
pub mod Shape
pub mod Rejects
pub mod Passes
pub mod Chain
pub mod Exact
use threaded_db_api_server.Prelude.{
  ℕ, suc, ◌+◌, Bool, true, false, ◌&&◌, Option, none, some, List, [], ◌∷◌, ◌++◌, ltb, leb, ◌==◌,
  if◌then◌else◌, length, ◌>>=◌,
}
use threaded_db_api_server.BpTree.{
  Entry, Node, leaf, internal, Children, last, more, key_count, max_keys, BpTree,
}

abbrev pub entry_keys : List Entry → List ℕ
entry_keys [] = []
entry_keys ((k, o) ∷ es) = k ∷ entry_keys es

-- the array `keys` of an internal node
abbrev pub separators : Children → List ℕ
separators (last c) = []
separators (more c k cs) = k ∷ separators cs

-- `keys[i - 1] < keys[i]` for every i, started behind `prev`
pub increase_from : ℕ → List ℕ → Bool
increase_from prev [] = true
increase_from prev (k ∷ ks) = ltb prev k && increase_from k ks

pub increase : List ℕ → Bool
unfolding increase_from
increase [] = true
increase (k ∷ ks) = increase_from k ks

-- a bound with its flag `has_lower` or `has_upper`
pub above_lower : Option ℕ → ℕ → Bool
above_lower none k = true
above_lower (some l) k = leb l k

pub below_upper : Option ℕ → ℕ → Bool
below_upper none k = true
below_upper (some u) k = ltb k u

pub in_range : Option ℕ → Option ℕ → List ℕ → Bool
unfolding above_lower below_upper
in_range lo hi [] = true
in_range lo hi (k ∷ ks) = above_lower lo k && below_upper hi k && in_range lo hi ks

-- not `child_lower >= child_upper`
pub proper_range : Option ℕ → Option ℕ → Bool
proper_range none hi = true
proper_range (some l) none = true
proper_range (some l) (some u) = ltb l u

-- `ValidationState`: the depth of the first leaf, once there is one
abbrev pub LeafDepth : Type 0
LeafDepth = Option ℕ

pub check_depth : ℕ → LeafDepth → Option LeafDepth
check_depth depth none = some (some depth)
check_depth depth (some d) = if d == depth then some (some d) else none

abbrev pub require : Bool → Option LeafDepth → Option LeafDepth
require b r = if b then r else none

mutual
  unfolding increase in_range proper_range check_depth

  pub validate_node : Option ℕ → Option ℕ → ℕ → LeafDepth → Node → Option LeafDepth
  validate_node lo hi depth st (leaf es) = require (leb (length es) max_keys) (
      require (increase (entry_keys es))
        (require (in_range lo hi (entry_keys es)) (check_depth depth st)))
  validate_node lo hi depth st (internal cs) =
      require (leb (key_count cs) max_keys)
        (require (increase (separators cs)) (validate_children lo hi (depth + 1) st cs))

  -- the loop over the children, each with the range between its separators
  pub validate_children : Option ℕ → Option ℕ → ℕ → LeafDepth → Children → Option LeafDepth
  validate_children lo hi depth st (last c) =
      require (proper_range lo hi) (validate_node lo hi depth st c)
  validate_children lo hi depth st (more c k cs) =
      require (proper_range lo (some k))
        (validate_node lo (some k) depth st c >>= λ st'. validate_children (some k) hi depth st' cs)

mutual
  -- the leaf chain from `find_leftmost_leaf` on
  pub leaf_chain : Node → List Entry
  leaf_chain (leaf es) = es
  leaf_chain (internal cs) = leaf_chain_below cs

  pub leaf_chain_below : Children → List Entry
  leaf_chain_below (last c) = leaf_chain c
  leaf_chain_below (more c k cs) = leaf_chain c ++ leaf_chain_below cs

validate_chain : ℕ → List Entry → Bool
unfolding increase
validate_chain count es = increase (entry_keys es) && length es == count

unfoldable pub bptree_validate : BpTree → Bool
unfolding validate_node leaf_chain validate_chain
bptree_validate t = elim t.root [
  | none ↦ t.key_count == 0
  | some n ↦ elim (validate_node none none 0 none n) [
    | none ↦ false
    | some st ↦ validate_chain t.key_count (leaf_chain n)
  ]
]
