-- ===== src/BpTree/Validate/Shape.antt =====
-- src/bptree.c: the trees that `bptree_validate` is about.
use threaded_db_api_server.Prelude.{
  ℕ, zero, suc, ◌≤◌, ◌<◌, ◌≡◌, Option, none, some, List, [], ◌∷◌, length,
}
use threaded_db_api_server.BpTree.Valid.{entries}
use threaded_db_api_server.BpTree.{
  Entry, Node, leaf, internal, Children, last, more, key_count, max_keys,
}

-- A key against the ends of a range, each of which may be open.
abbrev pub Over : Option ℕ → ℕ → Type 0
Over none k = Unit
Over (some l) k = l ≤ k

abbrev pub Under : Option ℕ → ℕ → Type 0
Under none k = Unit
Under (some u) k = k < u

abbrev pub Proper : Option ℕ → Option ℕ → Type 0
Proper none u = Unit
Proper (some l) none = Unit
Proper (some l) (some u) = l < u

-- Entries whose keys increase strictly within a range.
abbrev pub AreSorted : Option ℕ → Option ℕ → List Entry → Type 0
AreSorted l u [] = Unit
AreSorted l u ((k, o) ∷ es) = Over l k × Under u k × AreSorted (some (suc k)) u es

abbrev mutual
  -- A node of height `h`: the keys of its leaves increase and lie in the range, each child has the
  -- range between its separators, which is not empty, all leaves have one depth, and no node has
  -- more than BPTREE_MAX_KEYS keys.
  pub IsSearch : ℕ → Option ℕ → Option ℕ → Node → Type 0
  IsSearch zero l u (leaf es) = AreSorted l u es × (length es ≤ max_keys)
  IsSearch (suc h) l u (leaf es) = ⊥
  IsSearch zero l u (internal cs) = ⊥
  IsSearch (suc h) l u (internal cs) = AreSearch h l u cs × (key_count cs ≤ max_keys)

  pub AreSearch : ℕ → Option ℕ → Option ℕ → Children → Type 0
  AreSearch h l u (last c) = Proper l u × IsSearch h l u c
  AreSearch h l u (more c k cs) =
      Proper l (some k) × IsSearch h l (some k) c × AreSearch h (some k) u cs

-- A root like that with the count of its entries, or an empty tree.
abbrev pub IsSearchRoot : Option Node → ℕ → Type 0
IsSearchRoot none count = count ≡ 0
IsSearchRoot (some n) count = ((h : ℕ) × IsSearch h none none n) × (length (entries n) ≡ count)
