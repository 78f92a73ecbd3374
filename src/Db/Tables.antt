-- ===== src/Db/Tables.antt =====
-- The tables `files` and `xattrs` of files.db (`file_tables` in pseudo_db.c), and what is taken
-- from SQLite: which of several matching rows a SELECT steps to first, the SQL function replace,
-- and the choice of a fresh row id.
use pseudo.Prelude.{
  ℕ, ◌≡◌, ◌≢◌, Bool, true, false, ◌&&◌, Option, none, some, List, [], ◌∷◌, ◌++◌, All, keep, Str,
  str_eq, is_prefix, ℤ, int_eq,
}

-- A row of `files`; its id is never read.
pub record FileRow : Type 0 where
  pub path : Str
  pub dev : ℤ
  pub ino : ℤ
  pub uid : ℤ
  pub gid : ℤ
  pub mode : ℤ
  pub rdev : ℤ
  pub deleting : ℤ

pub record XattrRow : Type 0 where
  pub id : ℕ
  pub dev : ℤ
  pub ino : ℤ
  pub name : Str
  pub value : Str

-- `is_open` tells whether `file_db` is open or get_dbs() can open it.
pub record Db : Type 0 where
  pub is_open : Bool
  pub files : List FileRow
  pub xattrs : List XattrRow

-- y occurs somewhere in x.
abbrev pub occurs : Str → Str → Bool
occurs y [] = is_prefix y []
occurs y (c ∷ x) =
    let rest = occurs y x in elim (is_prefix y (c ∷ x)) [ true ↦ true | false ↦ rest ]

-- What the code relies on of SQLite. A SELECT steps to one of the matching rows, if there is any;
-- with no ORDER BY it may be any of them. replace(x, y, z) substitutes z for every occurrence of
-- y in x, from the left. A new row's id is not in use.
pub record Sqlite : Type 1 where
  pub first_file : List FileRow → Option FileRow
  pub first_file-nil : first_file [] ≡ none
  pub first_file-cons : (r : FileRow) (rs : List FileRow) → first_file (r ∷ rs) ≢ none
  pub first_file-from :
      (P : FileRow → Type 0) (rs : List FileRow) (r : FileRow)
      → All P rs
      → first_file rs ≡ some r
      → P r
  pub first_xattr : List XattrRow → Option XattrRow
  pub first_xattr-nil : first_xattr [] ≡ none
  pub first_xattr-cons : (r : XattrRow) (rs : List XattrRow) → first_xattr (r ∷ rs) ≢ none
  pub first_xattr-from :
      (P : XattrRow → Type 0) (rs : List XattrRow) (r : XattrRow)
      → All P rs
      → first_xattr rs ≡ some r
      → P r
  pub order_by_name : List XattrRow → List XattrRow
  pub replace : Str → Str → Str → Str
  pub replace-hit : (y z r : Str) → y ≢ [] → replace (y ++ r) y z ≡ z ++ replace r y z
  pub replace-miss : (x y z : Str) → occurs y x ≡ false → replace x y z ≡ x
  pub new_id : List ℕ → ℕ
  pub new_id-fresh : (ids : List ℕ) → All (λ i. i ≢ new_id ids) ids

-- WHERE clauses
abbrev pub at_path : Str → FileRow → Bool
at_path p r = str_eq r.path p

abbrev pub at_inode : ℤ → ℤ → FileRow → Bool
at_inode d i r = int_eq r.dev d && int_eq r.ino i

abbrev pub xattr_at : ℤ → ℤ → XattrRow → Bool
xattr_at d i x = int_eq x.dev d && int_eq x.ino i

abbrev pub xattr_named : ℤ → ℤ → Str → XattrRow → Bool
xattr_named d i n x = xattr_at d i x && str_eq x.name n

-- SELECT COUNT(*) FROM files WHERE dev = ? AND ino = ?, as a list
abbrev pub links : ℤ → ℤ → List FileRow → List FileRow
links d i = keep (at_inode d i)

abbrev pub is_nil {ℓ} : {A : Type ℓ} → List A → Bool
is_nil [] = true
is_nil (x ∷ xs) = false

abbrev pub nameless : Str
nameless =
    b'N' ∷ b'A' ∷ b'M' ∷ b'E' ∷ b'L' ∷ b'E' ∷ b'S' ∷ b'S' ∷ b' ' ∷ b'F' ∷ b'I' ∷ b'L' ∷ b'E' ∷ []
