-- ===== src/BpTree/Below.antt =====
-- src/bptree.c: `bptree_insert` keeps a tree well formed, and adds exactly one entry to it.
use threaded_db_api_server.Prelude.{
  ℕ, zero, suc, ◌+◌, ◌≤◌, ◌<◌, ◌≡◌, refl, sym, ◌∙◌, ap, none, some, List, [], ◌∷◌, ◌++◌, arith,
  append_assoc,
}
use threaded_db_api_server.BpTree.Leaf.{
  IsSorted, put, search_leaf-append_left, search_leaf-append_right, put-append_left,
  put-append_right, IsSorted-mono,
}
use threaded_db_api_server.BpTree.Valid.{
  entries, entries_below, IsNode, AreChildren, IsInserted, min_keys,
}
use threaded_db_api_server.BpTree.{
  Entry, Node, leaf, internal, Children, last, more, key_count, search_leaf, Inserted, duplicate,
  done, split, set_child, insert_into_internal_node, split_at,
}

IsSorted-weaken :
    (lo hi hi' : ℕ) (es : List Entry) → hi ≤ hi' → IsSorted lo hi es → IsSorted lo hi' es
IsSorted-weaken lo hi hi' [] h s = tt
IsSorted-weaken lo hi hi' ((k, o) ∷ es) h s =
    (s.0, omega arith, IsSorted-weaken (suc k) hi hi' es h s.2)

IsSorted-append :
    (lo mid hi : ℕ) (xs ys : List Entry)
    → lo ≤ mid
    → mid ≤ hi
    → IsSorted lo mid xs
    → IsSorted mid hi ys
    → IsSorted lo hi (xs ++ ys)
IsSorted-append lo mid hi [] ys a b s t = IsSorted-mono ys mid lo hi a t
IsSorted-append lo mid hi ((k, o) ∷ xs) ys a b s t =
    (s.0, omega arith, IsSorted-append (suc k) mid hi xs ys (omega arith) b s.2 t)

mutual
  -- The leaf chain is sorted.
  pub entries-IsSorted :
      (m h lo hi : ℕ) (n : Node) → IsNode m h lo hi n → IsSorted lo hi (entries n)
  entries-IsSorted m zero lo hi (leaf es) w = w.0
  entries-IsSorted m (suc h) lo hi (leaf es) w = absurd w
  entries-IsSorted m zero lo hi (internal cs) w = absurd w
  entries-IsSorted m (suc h) lo hi (internal cs) w = entries_below-IsSorted h lo hi cs w.0

  pub entries_below-IsSorted :
      (h lo hi : ℕ) (cs : Children) → AreChildren h lo hi cs → IsSorted lo hi (entries_below cs)
  entries_below-IsSorted h lo hi (last c) w = entries-IsSorted min_keys h lo hi c w
  entries_below-IsSorted h lo hi (more c k cs) w =
      IsSorted-append lo k hi (entries c) (entries_below cs) (omega arith) (omega arith)
        (entries-IsSorted min_keys h lo k c w.0) (entries_below-IsSorted h k hi cs w.3)

-- What the insertion below the child `i` of `cs` comes to, once `cs` has taken the result in.
abbrev pub IsBelow : ℕ → ℕ → ℕ → ℕ → ℕ → Children → ℕ → Inserted → Type 0
IsBelow h lo hi key off cs i duplicate = (o : ℕ) × (search_leaf key (entries_below cs) ≡ some o)
IsBelow h lo hi key off cs i (done n) =
    AreChildren h lo hi (set_child i n cs)
    × (key_count (set_child i n cs) ≡ key_count cs)
    × (search_leaf key (entries_below cs) ≡ none)
    × (entries_below (set_child i n cs) ≡ put key off (entries_below cs))
IsBelow h lo hi key off cs i (split l s r) =
    let cs' = insert_into_internal_node i s r (set_child i l cs) in
    AreChildren h lo hi cs'
    × (key_count (set_child i l cs) ≡ key_count cs)
    × (key_count cs' ≡ suc (key_count cs))
    × (search_leaf key (entries_below cs) ≡ none)
    × (entries_below cs' ≡ put key off (entries_below cs))

-- the only child
pub last-IsBelow :
    (h lo hi key off : ℕ) (c : Node) (r : Inserted)
    → IsInserted min_keys h lo hi key off (entries c) r
    → IsBelow h lo hi key off (last c) 0 r
unfolding set_child key_count insert_into_internal_node
last-IsBelow h lo hi key off c duplicate g = g
last-IsBelow h lo hi key off c (done n) g = (g.0, refl, g.1, g.2)
last-IsBelow h lo hi key off c (split l s r) g = ((g.0, g.2, g.3, g.1), refl, refl, g.4, g.5)

-- the first child of several
pub head-IsBelow :
    (h lo k hi key off : ℕ) (c : Node) (cs : Children) (r : Inserted)
    → key < k
    → lo < k
    → k < hi
    → AreChildren h k hi cs
    → IsInserted min_keys h lo k key off (entries c) r
    → IsBelow h lo hi key off (more c k cs) 0 r
unfolding set_child key_count insert_into_internal_node
head-IsBelow h lo k hi key off c cs r b p q w g = go r g
  where
    s : IsSorted k hi (entries_below cs)
    s = entries_below-IsSorted h k hi cs w

    found : search_leaf key (entries c ++ entries_below cs) ≡ search_leaf key (entries c)
    found = search_leaf-append_left k hi key (entries c) (entries_below cs) s b

    placed :
        put key off (entries c ++ entries_below cs) ≡ put key off (entries c) ++ entries_below cs
    placed = put-append_left k hi key off (entries c) (entries_below cs) s b

    go :
        (r : Inserted)
        → IsInserted min_keys h lo k key off (entries c) r
        → IsBelow h lo hi key off (more c k cs) 0 r
    go duplicate g = (g.0, found ∙ g.1)
    go (done n) g =
        ((g.0, p, q, w), refl, found ∙ g.1, ap (λ es. es ++ entries_below cs) g.2 ∙ sym placed)
    go (split l s r) g = (
      (g.0, g.2, (omega arith), (g.1, g.3, q, w)),
      refl,
      refl,
      found ∙ g.4,
      sym (append_assoc (entries l) (entries r) (entries_below cs))
          ∙ ap (λ es. es ++ entries_below cs) g.5
          ∙ sym placed,
    )

-- the separators up to `k` are passed
pub tail-IsBelow :
    (h lo k hi key off : ℕ) (c : Node) (cs : Children) (i : ℕ) (r : Inserted)
    → k ≤ key
    → lo < k
    → k < hi
    → IsNode min_keys h lo k c
    → IsBelow h k hi key off cs i r
    → IsBelow h lo hi key off (more c k cs) (suc i) r
unfolding set_child key_count insert_into_internal_node
tail-IsBelow h lo k hi key off c cs i r b p q w g = go r g
  where
    s : IsSorted lo k (entries c)
    s = entries-IsSorted min_keys h lo k c w

    found : search_leaf key (entries c ++ entries_below cs) ≡ search_leaf key (entries_below cs)
    found = search_leaf-append_right lo k key (entries c) (entries_below cs) s b

    placed :
        put key off (entries c ++ entries_below cs) ≡ entries c ++ put key off (entries_below cs)
    placed = put-append_right lo k key off (entries c) (entries_below cs) s b

    go :
        (r : Inserted)
        → IsBelow h k hi key off cs i r
        → IsBelow h lo hi key off (more c k cs) (suc i) r
    go duplicate g = (g.0, found ∙ g.1)
    go (done n) g =
        ((w, p, q, g.0), ap suc g.1, found ∙ g.2, ap (λ es. entries c ++ es) g.3 ∙ sym placed)
    go (split l s r) g = (
      (w, p, q, g.0),
      ap suc g.1,
      ap suc g.2,
      found ∙ g.3,
      ap (λ es. entries c ++ es) g.4 ∙ sym placed,
    )

-- The cut of an internal node.
abbrev pub IsCut : ℕ → ℕ → ℕ → ℕ → Children → Inserted → Type 0
IsCut h lo hi i cs (split (internal ls) p (internal rs)) =
    AreChildren h lo p ls
    × AreChildren h p hi rs
    × (lo < p)
    × (p < hi)
    × (key_count ls ≡ i)
    × (i + suc (key_count rs) ≡ key_count cs)
    × (entries_below ls ++ entries_below rs ≡ entries_below cs)
IsCut h lo hi i cs _ = ⊥

IsCut-more :
    (h lo k hi i : ℕ) (c : Node) (cs : Children) (r : Inserted)
    → IsNode min_keys h lo k c
    → lo < k
    → IsCut h k hi i cs r
    → IsCut h lo hi
        (suc i)
        (more c k cs)
        (elim r [ split (internal ls) p r ↦ split (internal (more c k ls)) p r | other ↦ other ])
unfolding key_count
IsCut-more h lo k hi i c cs (split (internal ls) p (internal rs)) w a g = (
  (w, a, g.2, g.0),
  g.1,
  omega (arith, g.2),
  g.3,
  ap suc g.4,
  omega (arith, g.5),
  append_assoc (entries c) (entries_below ls) (entries_below rs) ∙ ap (λ es. entries c ++ es) g.6,
)
IsCut-more h lo k hi i c cs (split (internal ls) p (leaf es)) w a g = absurd g
IsCut-more h lo k hi i c cs (split (leaf es) p r) w a g = absurd g
IsCut-more h lo k hi i c cs duplicate w a g = absurd g
IsCut-more h lo k hi i c cs (done n) w a g = absurd g

pub split_at-IsCut :
    (h lo hi i : ℕ) (cs : Children)
    → i < key_count cs
    → AreChildren h lo hi cs
    → IsCut h lo hi i cs (split_at i cs)
unfolding split_at key_count
split_at-IsCut h lo hi i (last c) b w = absurd (omega arith)
split_at-IsCut h lo hi zero (more c k cs) b w = (w.0, w.3, w.1, w.2, refl, omega arith, refl)
split_at-IsCut h lo hi (suc i) (more c k cs) b w =
    IsCut-more h lo k hi i c cs (split_at i cs) w.0 w.1
      (split_at-IsCut h k hi i cs (omega arith) w.3)
