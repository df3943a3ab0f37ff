-- ===== src/BpTree/Validate/Rejects.antt =====
-- src/bptree.c: a tree that passes the checks of `bptree_validate` is of its shape.
use threaded_db_api_server.Prelude.{
  ℕ, suc, ◌+◌, ◌≡◌, refl, subst, Bool, true, false, ◌&&◌, Option, none, some, List, [], ◌∷◌, length,
  leb, ◌>>=◌, arith,
}
use threaded_db_api_server.BpTree.{
  Entry, Node, leaf, internal, Children, last, more, key_count, max_keys,
}
use threaded_db_api_server.BpTree.Validate.{
  entry_keys, separators, increase_from, increase, above_lower, below_upper, in_range, proper_range,
  LeafDepth, check_depth, require, validate_node, validate_children,
}
use threaded_db_api_server.BpTree.Validate.Shape.{
  Over, Under, Proper, AreSorted, IsSearch, AreSearch,
}

-- From the checks to the ranges.
pub both_true : (a b : Bool) → (a && b) ≡ true → (a ≡ true) × (b ≡ true)
both_true true b e = (refl, e)
both_true false b e = absurd (cc e)

require-some :
    (b : Bool) (r : Option LeafDepth) {st : LeafDepth}
    → require b r ≡ some st
    → (b ≡ true) × (r ≡ some st)
require-some true r e = (refl, e)
require-some false r e = absurd (cc e)

pub above_lower-Over : (l : Option ℕ) (k : ℕ) → above_lower l k ≡ true → Over l k
unfolding above_lower
above_lower-Over none k e = tt
above_lower-Over (some l) k e = ground (arith, e)

below_upper-Under : (u : Option ℕ) (k : ℕ) → below_upper u k ≡ true → Under u k
unfolding below_upper
below_upper-Under none k e = tt
below_upper-Under (some u) k e = ground (arith, e)

proper_range-Proper : (l u : Option ℕ) → proper_range l u ≡ true → Proper l u
unfolding proper_range
proper_range-Proper none u e = tt
proper_range-Proper (some l) none e = tt
proper_range-Proper (some l) (some u) e = ground (arith, e)

in_range-cons :
    (l u : Option ℕ) (k : ℕ) (ks : List ℕ)
    → in_range l u (k ∷ ks) ≡ true
    → Over l k × Under u k × (in_range l u ks ≡ true)
unfolding in_range
in_range-cons l u k ks e =
    let (first, c) = both_true (above_lower l k && below_upper u k) (in_range l u ks) e in
    let (a, b) = both_true (above_lower l k) (below_upper u k) first in
    (above_lower-Over l k a, below_upper-Under u k b, c)

increase_from-AreSorted :
    (l u : Option ℕ) (p : ℕ) (es : List Entry)
    → increase_from p (entry_keys es) ≡ true
    → in_range l u (entry_keys es) ≡ true
    → AreSorted (some (suc p)) u es
unfolding increase_from
increase_from-AreSorted l u p [] e r = tt
increase_from-AreSorted l u p ((k, o) ∷ es) e r =
    let (_, under, later) = in_range-cons l u k (entry_keys es) r in
    (ground (arith, e), under, increase_from-AreSorted l u k es (ground (arith, e)) later)

increase-AreSorted :
    (l u : Option ℕ) (es : List Entry)
    → increase (entry_keys es) ≡ true
    → in_range l u (entry_keys es) ≡ true
    → AreSorted l u es
unfolding increase
increase-AreSorted l u [] e r = tt
increase-AreSorted l u ((k, o) ∷ es) e r =
    let (over, under, later) = in_range-cons l u k (entry_keys es) r in
    (over, under, increase_from-AreSorted l u k es e later)

-- The depth of a leaf, if it is that of the leaves before.
abbrev pub AtDepth : LeafDepth → ℕ → Type 0
AtDepth none d = Unit
AtDepth (some e) d = e ≡ d

check_depth-AtDepth :
    (d : ℕ) (st : LeafDepth) {st' : LeafDepth}
    → check_depth d st ≡ some st'
    → (st' ≡ some d) × AtDepth st d
unfolding check_depth
check_depth-AtDepth d none e = (cc e, tt)
check_depth-AtDepth d (some f) e = ground (arith, e)

-- What a check that succeeds says of a node: it is of some height, and its leaves have the depth of
-- those before.
abbrev pub Checked : Option ℕ → Option ℕ → ℕ → LeafDepth → Node → LeafDepth → Type 0
Checked l u d st n st' = (h : ℕ) × IsSearch h l u n × (st' ≡ some (d + h)) × AtDepth st (d + h)

abbrev CheckedBelow : Option ℕ → Option ℕ → ℕ → LeafDepth → Children → LeafDepth → Type 0
CheckedBelow l u d st cs st' =
    (h : ℕ) × AreSearch h l u cs × (st' ≡ some (d + h)) × AtDepth st (d + h)

add_suc : (d h : ℕ) → d + 1 + h ≡ d + suc h
add_suc d h = omega arith

mutual
  unfolding validate_node

  pub validate_node-Checked :
      (l u : Option ℕ) (d : ℕ) (st : LeafDepth) (n : Node) {st' : LeafDepth}
      → validate_node l u d st n ≡ some st'
      → Checked l u d st n st'
  validate_node-Checked l u d st (leaf es) {st'} e =
      let (small, e1) = require-some (leb (length es) max_keys) _ e in
      let (up, e2) = require-some (increase (entry_keys es)) _ e1 in
      let (within, e3) = require-some (in_range l u (entry_keys es)) _ e2 in
      let (depth, before) = check_depth-AtDepth d st e3 in
      let same : d ≡ d + 0 = omega arith in
      (
        0,
        (increase-AreSorted l u es up within, ground (arith, small)),
        subst (λ k. st' ≡ some k) same depth,
        subst (AtDepth st) same before,
      )
  validate_node-Checked l u d st (internal cs) {st'} e =
      let (small, e1) = require-some (leb (key_count cs) max_keys) _ e in
      let (up, e2) = require-some (increase (separators cs)) _ e1 in
      let (h, w, depth, before) = validate_children-Checked l u (d + 1) st cs e2 in
      (
        suc h,
        (w, ground (arith, small)),
        subst (λ k. st' ≡ some k) (add_suc d h) depth,
        subst (AtDepth st) (add_suc d h) before,
      )

  validate_children-Checked :
      (l u : Option ℕ) (d : ℕ) (st : LeafDepth) (cs : Children) {st' : LeafDepth}
      → validate_children l u d st cs ≡ some st'
      → CheckedBelow l u d st cs st'
  validate_children-Checked l u d st (last c) e =
      let (proper, e1) = require-some (proper_range l u) _ e in
      let (h, w, depth, before) = validate_node-Checked l u d st c e1 in
      (h, (proper_range-Proper l u proper, w), depth, before)
  validate_children-Checked l u d st (more c k cs) {st'} e =
      let (proper, e1) = require-some (proper_range l (some k)) _ e in
      go (validate_node l (some k) d st c) (λ st1 q. validate_node-Checked l (some k) d st c q)
        (λ st1 q. validate_children-Checked (some k) u d st1 cs q)
        (proper_range-Proper l (some k) proper) e1
    where
      go :
          (o : Option LeafDepth)
          → ((st1 : LeafDepth) → o ≡ some st1 → Checked l (some k) d st c st1)
          → ((st1 : LeafDepth)
              → validate_children (some k) u d st1 cs ≡ some st'
              → CheckedBelow (some k) u d st1 cs st')
          → Proper l (some k)
          → (o >>= λ st1. validate_children (some k) u d st1 cs) ≡ some st'
          → CheckedBelow l u d st (more c k cs) st'
      go none first later p e = absurd (cc e)
      go (some st1) first later p e =
          let (h, w, depth, before) = first st1 refl in
          let (j, ws, end, same) = later st1 e in
          let at : d + h ≡ d + j = subst (λ s. AtDepth s (d + j)) depth same in
          let heights : j ≡ h = omega (arith, at) in
          (
            h,
            (p, w, subst (λ i. AreSearch i (some k) u cs) heights ws),
            subst (λ i. st' ≡ some (d + i)) heights end,
            before,
          )
