-- ===== src/BpTree/Validate/Passes.antt =====
-- src/bptree.c: a tree of the shape passes the checks of `bptree_validate`.
use threaded_db_api_server.Prelude.{
  ℕ, zero, suc, ◌+◌, ◌≤◌, ◌≡◌, refl, ap, sym, subst, true, Option, none, some, List, [], ◌∷◌,
  length, leb, arith,
}
use threaded_db_api_server.BpTree.{
  Entry, Node, leaf, internal, Children, last, more, key_count, max_keys,
}
use threaded_db_api_server.BpTree.Validate.{
  entry_keys, separators, increase_from, increase, above_lower, below_upper, in_range, proper_range,
  LeafDepth, check_depth, validate_node, validate_children,
}
use threaded_db_api_server.BpTree.Validate.Shape.{
  Over, Under, Proper, AreSorted, IsSearch, AreSearch,
}
use threaded_db_api_server.BpTree.Validate.Rejects.{above_lower-Over, AtDepth}

-- From the ranges back to the checks.
Over-le : (l : Option ℕ) (p k : ℕ) → Over l p → p ≤ k → above_lower l k ≡ true
unfolding above_lower
Over-le none p k h le = refl
Over-le (some l) p k h le = ground arith

Under-below_upper : (u : Option ℕ) (k : ℕ) → Under u k → below_upper u k ≡ true
unfolding below_upper
Under-below_upper none k h = refl
Under-below_upper (some u) k h = ground arith

Proper-proper_range : (l u : Option ℕ) → Proper l u → proper_range l u ≡ true
unfolding proper_range
Proper-proper_range none u h = refl
Proper-proper_range (some l) none h = refl
Proper-proper_range (some l) (some u) h = ground arith

tail-in_range :
    (l u : Option ℕ) (p : ℕ) (es : List Entry)
    → Over l p
    → AreSorted (some (suc p)) u es
    → in_range l u (entry_keys es) ≡ true
unfolding in_range
tail-in_range l u p [] h s = refl
tail-in_range l u p ((k, o) ∷ es) h (over, under, later) =
    let above = Over-le l p k h (omega arith) in
    rw
      (
        above,
        Under-below_upper u k under,
        tail-in_range l u k es (above_lower-Over l k above) later,
      )
      refl

AreSorted-in_range :
    (l u : Option ℕ) (es : List Entry) → AreSorted l u es → in_range l u (entry_keys es) ≡ true
unfolding in_range
AreSorted-in_range l u [] s = refl
AreSorted-in_range l u ((k, o) ∷ es) (over, under, later) =
    rw
      (
        Over-le l k k over (omega arith),
        Under-below_upper u k under,
        tail-in_range l u k es over later,
      )
      refl

AreSorted-increase_from :
    (p : ℕ) (u : Option ℕ) (es : List Entry)
    → AreSorted (some (suc p)) u es
    → increase_from p (entry_keys es) ≡ true
unfolding increase_from
AreSorted-increase_from p u [] s = refl
AreSorted-increase_from p u ((k, o) ∷ es) (over, under, later) =
    ground (arith, over, AreSorted-increase_from k u es later)

pub AreSorted-increase :
    (l u : Option ℕ) (es : List Entry) → AreSorted l u es → increase (entry_keys es) ≡ true
unfolding increase
AreSorted-increase l u [] s = refl
AreSorted-increase l u ((k, o) ∷ es) (over, under, later) = AreSorted-increase_from k u es later

AreSearch-increase_from :
    (h p : ℕ) (u : Option ℕ) (cs : Children)
    → AreSearch h (some p) u cs
    → increase_from p (separators cs) ≡ true
unfolding increase_from
AreSearch-increase_from h p u (last c) w = refl
AreSearch-increase_from h p u (more c k cs) (proper, w, ws) =
    ground (arith, proper, AreSearch-increase_from h k u cs ws)

AreSearch-increase :
    (h : ℕ) (l u : Option ℕ) (cs : Children) → AreSearch h l u cs → increase (separators cs) ≡ true
unfolding increase
AreSearch-increase h l u (last c) w = refl
AreSearch-increase h l u (more c k cs) (proper, w, ws) = AreSearch-increase_from h k u cs ws

AtDepth-check_depth : (d : ℕ) (st : LeafDepth) → AtDepth st d → check_depth d st ≡ some (some d)
unfolding check_depth
AtDepth-check_depth d none h = refl
AtDepth-check_depth d (some e) h = ground arith

mutual
  unfolding validate_node

  pub IsSearch-validate_node :
      (h : ℕ) (l u : Option ℕ) (d e : ℕ) (st : LeafDepth) (n : Node)
      → IsSearch h l u n
      → d + h ≡ e
      → AtDepth st e
      → validate_node l u d st n ≡ some (some e)
  IsSearch-validate_node zero l u d e st (leaf es) (sorted, small) q at =
      let few : leb (length es) max_keys ≡ true = ground (arith, small) in
      let same : d ≡ e = omega arith in
      let depth = AtDepth-check_depth d st (subst (AtDepth st) (sym same) at) in
      rw (few, AreSorted-increase l u es sorted, AreSorted-in_range l u es sorted, depth)
        (ap (λ k. some (some k)) same)
  IsSearch-validate_node zero l u d e st (internal cs) w q at = absurd w
  IsSearch-validate_node (suc h) l u d e st (leaf es) w q at = absurd w
  IsSearch-validate_node (suc h) l u d e st (internal cs) (ws, small) q at =
      let few : leb (key_count cs) max_keys ≡ true = ground (arith, small) in
      rw (few, AreSearch-increase h l u cs ws)
        (AreSearch-validate_children h l u (d + 1) e st cs ws (omega arith) at)

  AreSearch-validate_children :
      (h : ℕ) (l u : Option ℕ) (d e : ℕ) (st : LeafDepth) (cs : Children)
      → AreSearch h l u cs
      → d + h ≡ e
      → AtDepth st e
      → validate_children l u d st cs ≡ some (some e)
  AreSearch-validate_children h l u d e st (last c) (proper, w) q at =
      rw (Proper-proper_range l u proper) (IsSearch-validate_node h l u d e st c w q at)
  AreSearch-validate_children h l u d e st (more c k cs) (proper, w, ws) q at =
      rw
        (Proper-proper_range l (some k) proper, IsSearch-validate_node h l (some k) d e st c w q at)
        (AreSearch-validate_children h (some k) u d e (some e) cs ws q refl)
