-- ===== src/BpTree/Leaf.antt =====
-- src/bptree.c: sorted entry arrays, and what the leaf operations make of them.
use threaded_db_api_server.Prelude.{
  ℕ, zero, suc, ◌+◌, min, ◌≤◌, ◌<◌, ◌≡◌, refl, none, some, List, [], ◌∷◌, ◌++◌, arith, ltb, ◌==◌,
  if◌then◌else◌, length, take, drop,
}
use threaded_db_api_server.BpTree.{Entry, search_leaf, insert_into_leaf, first_key}

-- The keys lie between `lo` and `hi`, the upper end left out, and increase strictly.
abbrev pub IsSorted : ℕ → ℕ → List Entry → Type 0
IsSorted lo hi [] = Unit
IsSorted lo hi ((k, o) ∷ es) = (lo ≤ k) × (k < hi) × IsSorted (suc k) hi es

-- An entry put in its place, the key being new.
abbrev pub put : ℕ → ℕ → List Entry → List Entry
put key off [] = (key, off) ∷ []
put key off ((k, o) ∷ es) = if ltb key k then (key, off) ∷ (k, o) ∷ es else (k, o) ∷ put key off es

pub IsSorted-mono :
    (es : List Entry) (lo lo' hi : ℕ) → lo' ≤ lo → IsSorted lo hi es → IsSorted lo' hi es
IsSorted-mono [] lo lo' hi h s = tt
IsSorted-mono ((k, o) ∷ es) lo lo' hi h s = (omega arith, s.1, s.2)

pub search_leaf-below :
    (es : List Entry) (lo hi key : ℕ) → IsSorted lo hi es → key < lo → search_leaf key es ≡ none
unfolding search_leaf
search_leaf-below [] lo hi key s h = refl
search_leaf-below ((k, o) ∷ es) lo hi key s h =
    ground (arith, search_leaf-below es (suc k) hi key s.2)

-- A key that is found lies in the range.
pub search_leaf-above :
    (es : List Entry) (lo hi key : ℕ) → IsSorted lo hi es → hi ≤ key → search_leaf key es ≡ none
unfolding search_leaf
search_leaf-above [] lo hi key s h = refl
search_leaf-above ((k, o) ∷ es) lo hi key s h =
    ground (arith, search_leaf-above es (suc k) hi key s.2)

-- The leaf insertion refuses a key that is there, and otherwise puts the entry in its place.
pub insert_into_leaf_lem :
    (key off : ℕ) (es : List Entry) (lo hi : ℕ)
    → IsSorted lo hi es
    → insert_into_leaf key off es
      ≡ (elim (search_leaf key es) [ none ↦ some (put key off es) | some o ↦ none ])
unfolding insert_into_leaf search_leaf
insert_into_leaf_lem key off [] lo hi s = refl
insert_into_leaf_lem key off ((k, o) ∷ es) lo hi s =
    ground (
      arith,
      insert_into_leaf_lem key off es (suc k) hi s.2,
      search_leaf-below es (suc k) hi key s.2,
    )

pub IsSorted-put :
    (key off : ℕ) (es : List Entry) (lo hi : ℕ)
    → IsSorted lo hi es
    → lo ≤ key
    → key < hi
    → search_leaf key es ≡ none
    → IsSorted lo hi (put key off es)
unfolding search_leaf
IsSorted-put key off [] lo hi s l u n = (l, u, tt)
IsSorted-put key off ((k, o) ∷ es) lo hi s l u n =
    ground (arith, IsSorted-put key off es (suc k) hi s.2, IsSorted-mono es (suc k) (suc k) hi)

pub length-put : (key off : ℕ) (es : List Entry) → length (put key off es) ≡ suc (length es)
length-put key off [] = refl
length-put key off ((k, o) ∷ es) = ground (arith, length-put key off es)

-- Reading after a put: the new key has its offset, every other key what it had.
pub search_leaf-put :
    (key off j : ℕ) (es : List Entry)
    → search_leaf key es ≡ none
    → search_leaf j (put key off es) ≡ (if key == j then some off else search_leaf j es)
unfolding search_leaf
search_leaf-put key off j [] n = refl
search_leaf-put key off j ((k, o) ∷ es) n = ground (arith, search_leaf-put key off j es)

-- Two arrays that meet at `mid`.
pub search_leaf-append_left :
    (mid hi key : ℕ) (xs ys : List Entry)
    → IsSorted mid hi ys
    → key < mid
    → search_leaf key (xs ++ ys) ≡ search_leaf key xs
unfolding search_leaf
search_leaf-append_left mid hi key [] ys t h = search_leaf-below ys mid hi key t h
search_leaf-append_left mid hi key ((k, o) ∷ xs) ys t h =
    ground (arith, search_leaf-append_left mid hi key xs ys t h)

pub search_leaf-append_right :
    (lo mid key : ℕ) (xs ys : List Entry)
    → IsSorted lo mid xs
    → mid ≤ key
    → search_leaf key (xs ++ ys) ≡ search_leaf key ys
unfolding search_leaf
search_leaf-append_right lo mid key [] ys t h = refl
search_leaf-append_right lo mid key ((k, o) ∷ xs) ys t h =
    ground (arith, search_leaf-append_right (suc k) mid key xs ys t.2 h)

pub put-append_left :
    (mid hi key off : ℕ) (xs ys : List Entry)
    → IsSorted mid hi ys
    → key < mid
    → put key off (xs ++ ys) ≡ put key off xs ++ ys
put-append_left mid hi key off [] [] t h = refl
put-append_left mid hi key off [] ((k, o) ∷ ys) t h = ground arith
put-append_left mid hi key off ((k, o) ∷ xs) ys t h =
    ground (arith, put-append_left mid hi key off xs ys t h)

pub put-append_right :
    (lo mid key off : ℕ) (xs ys : List Entry)
    → IsSorted lo mid xs
    → mid ≤ key
    → put key off (xs ++ ys) ≡ xs ++ put key off ys
put-append_right lo mid key off [] ys t h = refl
put-append_right lo mid key off ((k, o) ∷ xs) ys t h =
    ground (arith, put-append_right (suc k) mid key off xs ys t.2 h)

-- The cut of a leaf: both halves are sorted, and the first key of the right half parts them.
pub record Cut (lo hi n : ℕ) (es : List Entry) : Type 0 where
  pub left : IsSorted lo (first_key (drop n es)) (take n es)
  pub right : IsSorted (first_key (drop n es)) hi (drop n es)
  pub above : lo + min 1 n ≤ first_key (drop n es)
  pub below : first_key (drop n es) < hi

pub IsSorted-Cut :
    (lo hi n : ℕ) (es : List Entry) → n < length es → IsSorted lo hi es → Cut lo hi n es
unfolding first_key
IsSorted-Cut lo hi n [] h s = absurd (omega arith)
IsSorted-Cut lo hi zero ((k, o) ∷ es) h s = record {
  left = tt;
  right = (omega arith, s.1, s.2);
  above = omega arith;
  below = s.1;
}
IsSorted-Cut lo hi (suc n) ((k, o) ∷ es) h s =
    let c = IsSorted-Cut (suc k) hi n es (omega arith) s.2 in
    record {
      left = (s.0, omega (arith, c.above), c.left);
      right = c.right;
      above = omega (arith, c.above);
      below = c.below;
    }
