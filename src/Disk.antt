-- ===== src/Disk.antt =====
-- The files that src/storage.c and src/schema.c open, as far as they see them.
--
-- A path has content, or there is no file (ENOENT). Opening a path may be denied for another
-- reason; a file that is open takes every read, write and seek, and its size stays below 2^63.
use threaded_db_api_server.Prelude.{
  ℕ, Bool, ◌&&◌, Option, none, some, [], ◌∷◌, ◌++◌, not, ◌==◌, if◌then◌else◌, ◌≡◌, ◌≢◌, refl,
  Bool-cases, inl, inr,
}
use threaded_db_api_server.Prelude.Bytes.{Bytes, str_eq, str_eq_iff}

pub record Disk : Type 0 where
  pub file : Bytes → Option Bytes
  pub denied : Bytes → Bool

unfoldable pub write_file : Disk → Bytes → Bytes → Disk
write_file d path content = record d {
  file = λ p. if str_eq path p then some content else d.file p;
}

pub file-write_file_self :
    (d : Disk) (path content : Bytes) → (write_file d path content).file path ≡ some content
unfolding write_file
file-write_file_self d path content = rw ((str_eq_iff path path).1 refl)

pub file-write_file_ne :
    (d : Disk) (path content p : Bytes) → path ≢ p → (write_file d path content).file p ≡ d.file p
unfolding write_file
file-write_file_ne d path content p h = elim (Bool-cases (str_eq path p)) [
  | inl e ↦ absurd (h ((str_eq_iff path p).0 e))
  | inr e ↦ rw e
]

pub denied-write_file :
    (d : Disk) (path content : Bytes) → (write_file d path content).denied ≡ d.denied
unfolding write_file
denied-write_file d path content = refl

-- the content, or nothing where the mode "a" creates the file
abbrev pub content_or_empty : Option Bytes → Bytes
content_or_empty none = []
content_or_empty (some content) = content

last_byte : Bytes → ℕ
last_byte [] = 0
last_byte (c ∷ []) = c
last_byte (c ∷ d ∷ cs) = last_byte (d ∷ cs)

-- `needs_separator`
needs_separator : Bytes → Bool
needs_separator [] = Bool.false
needs_separator (c ∷ cs) = not (last_byte (c ∷ cs) == b'/') && not (last_byte (c ∷ cs) == b'\\')

-- `build_table_path`, of both files
unfoldable pub build_table_path : Bytes → Bytes → Bytes → Bytes
unfolding needs_separator last_byte
build_table_path db_dir table_name suffix =
    db_dir ++ ((if needs_separator db_dir then b'/' ∷ [] else []) ++ (table_name ++ suffix))
