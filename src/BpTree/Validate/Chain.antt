-- ===== src/BpTree/Validate/Chain.antt =====
-- src/bptree.c: the leaf chain of a tree of the shape is sorted.
use threaded_db_api_server.Prelude.{
  ℕ, zero, suc, ◌≤◌, ◌<◌, Option, none, some, List, [], ◌∷◌, ◌++◌, arith,
}
use threaded_db_api_server.BpTree.Valid.{entries, entries_below}
use threaded_db_api_server.BpTree.{Entry, Node, leaf, internal, Children, last, more}
use threaded_db_api_server.BpTree.Validate.Shape.{
  Over, Under, Proper, AreSorted, IsSearch, AreSearch,
}

-- The leaf chain as a whole.
Proper-trans : (l u : Option ℕ) (k : ℕ) → Proper l (some k) → Proper (some k) u → Proper l u
Proper-trans none u k p q = tt
Proper-trans (some l) none k p q = tt
Proper-trans (some l) (some u) k p q = omega arith

AreSearch-Proper : (h : ℕ) (l u : Option ℕ) (cs : Children) → AreSearch h l u cs → Proper l u
AreSearch-Proper h l u (last c) (proper, w) = proper
AreSearch-Proper h l u (more c k cs) (proper, w, ws) =
    Proper-trans l u k proper (AreSearch-Proper h (some k) u cs ws)

Over-Proper : (l : Option ℕ) (k j : ℕ) → Proper l (some k) → k ≤ j → Over l j
Over-Proper none k j p h = tt
Over-Proper (some l) k j p h = omega arith

Under-Proper : (u : Option ℕ) (k j : ℕ) → Proper (some k) u → j < k → Under u j
Under-Proper none k j p h = tt
Under-Proper (some u) k j p h = omega arith

AreSorted-lower :
    (l u : Option ℕ) (k : ℕ) (es : List Entry)
    → ((j : ℕ) → k ≤ j → Over l j)
    → AreSorted (some k) u es
    → AreSorted l u es
AreSorted-lower l u k [] h s = tt
AreSorted-lower l u k ((j, o) ∷ es) h (over, under, later) = (h j over, under, later)

AreSorted-append :
    (l u : Option ℕ) (k : ℕ) (xs ys : List Entry)
    → ((j : ℕ) → k ≤ j → Over l j)
    → Proper (some k) u
    → AreSorted l (some k) xs
    → AreSorted (some k) u ys
    → AreSorted l u (xs ++ ys)
AreSorted-append l u k [] ys h p s t = AreSorted-lower l u k ys h t
AreSorted-append l u k ((j, o) ∷ xs) ys h p (over, under, later) t = (
  over,
  Under-Proper u k j p under,
  AreSorted-append (some (suc j)) u k xs ys (λ i le. omega (arith, under)) p later t,
)

mutual
  pub entries-AreSorted :
      (h : ℕ) (l u : Option ℕ) (n : Node) → IsSearch h l u n → AreSorted l u (entries n)
  entries-AreSorted zero l u (leaf es) w = w.0
  entries-AreSorted zero l u (internal cs) w = absurd w
  entries-AreSorted (suc h) l u (leaf es) w = absurd w
  entries-AreSorted (suc h) l u (internal cs) w = entries_below-AreSorted h l u cs w.0

  entries_below-AreSorted :
      (h : ℕ) (l u : Option ℕ) (cs : Children)
      → AreSearch h l u cs
      → AreSorted l u (entries_below cs)
  entries_below-AreSorted h l u (last c) (proper, w) = entries-AreSorted h l u c w
  entries_below-AreSorted h l u (more c k cs) (proper, w, ws) =
      AreSorted-append l u k (entries c) (entries_below cs) (λ j le. Over-Proper l k j proper le)
        (AreSearch-Proper h (some k) u cs ws) (entries-AreSorted h l (some k) c w)
        (entries_below-AreSorted h (some k) u cs ws)
