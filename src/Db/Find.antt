-- ===== src/Db/Find.antt =====
-- Looking up what was linked: the round trip of a message through the table `files`.
use pseudo.Prelude.{
  ◌<◌, ◌^◌, ◌≡◌, ap, ◌∙◌, true, ◌&&◌, Option, some, [], ◌∷◌, ◌++◌, keep, keep-append, Bool-cases,
  inl, inr, arith, Str, str_eq_refl,
}
use pseudo.Message.{Msg}
use pseudo.Db.Column.{to_u64-signed_ino, to_u32-as_int, to_u64-as_int}
use pseudo.Db.Tables.{FileRow, Db, Sqlite, at_path, at_inode}
use pseudo.Db.Select.{first_file-one}
use pseudo.Db.Xattrs.{dev_key, ino_key}
use pseudo.Db.Files.{
  text_of, has_path, new_row, link_file, read_owner, read_row, find_file_exact, find_file_path,
  find_file_dev,
}

-- The fields of a message fit the columns that they are bound to.
pub record Fits (m : Msg) : Type 0 where
  pub dev : m.dev < 2 ^ 31
  pub ino : m.ino < 2 ^ 64
  pub uid : m.uid < 2 ^ 32
  pub gid : m.gid < 2 ^ 32
  pub mode : m.mode < 2 ^ 31
  pub rdev : m.rdev < 2 ^ 31

-- q with the owner, mode and device numbers of m, and no deletion mark
abbrev pub filled : Msg → Msg → Msg
filled m q = record q { uid = m.uid; gid = m.gid; mode = m.mode; rdev = m.rdev; deleting = 0 }

pub read_owner-new_row : (m q : Msg) → Fits m → read_owner (new_row m) q ≡ filled m q
unfolding read_owner new_row
read_owner-new_row m q h = ground (
  arith,
  to_u32-as_int m.uid,
  to_u32-as_int m.gid,
  to_u64-as_int m.mode,
  to_u64-as_int m.rdev,
  to_u32-as_int 0,
)

pub read_row-new_row :
    (m q : Msg) → Fits m → read_row (new_row m) q ≡ record (filled m q) { dev = m.dev; ino = m.ino }
unfolding read_row new_row
read_row-new_row m q h = ground (
  arith,
  to_u32-as_int m.uid,
  to_u32-as_int m.gid,
  to_u64-as_int m.mode,
  to_u64-as_int m.rdev,
  to_u32-as_int 0,
  to_u64-as_int m.dev,
  (to_u64-signed_ino m.ino h.ino).0,
)

module _ (sql : Sqlite) (q : Msg) (db : Db) (h : db.is_open ≡ true) where
  pub find_file_path-one :
      (r : FileRow)
      → has_path q ≡ true
      → keep (at_path (text_of q)) db.files ≡ r ∷ []
      → find_file_path sql q db ≡ (0, read_row r q)
  unfolding find_file_path
  find_file_path-one r p e = rw (h, p, e, first_file-one sql r)

  pub find_file_path-nil :
      keep (at_path (text_of q)) db.files ≡ [] → find_file_path sql q db ≡ (1, q)
  unfolding find_file_path
  find_file_path-nil e = elim (Bool-cases (has_path q)) [
    | inl p ↦ rw (h, p, e, sql.first_file-nil)
    | inr p ↦ rw (h, p)
  ]

  pub find_file_exact-one :
      (r : FileRow)
      → keep (λ x. at_path (text_of q) x && at_inode (dev_key q) (ino_key q) x) db.files ≡ r ∷ []
      → find_file_exact sql q db ≡ (0, read_owner r q)
  unfolding find_file_exact
  find_file_exact-one r e = rw (h, e, first_file-one sql r)

  pub find_file_exact-nil :
      keep (λ x. at_path (text_of q) x && at_inode (dev_key q) (ino_key q) x) db.files ≡ []
      → find_file_exact sql q db ≡ (1, q)
  unfolding find_file_exact
  find_file_exact-nil e = rw (h, e, sql.first_file-nil)

  pub find_file_dev-one :
      (r : FileRow) (p : Option Str)
      → keep (at_inode (dev_key q) (ino_key q)) db.files ≡ r ∷ []
      → find_file_dev sql q p db ≡ (0, read_owner r q, some r.path)
  unfolding find_file_dev
  find_file_dev-one r p e = rw (h, e, first_file-one sql r)

  pub find_file_dev-nil :
      (p : Option Str)
      → keep (at_inode (dev_key q) (ino_key q)) db.files ≡ []
      → find_file_dev sql q p db ≡ (1, q, p)
  unfolding find_file_dev
  find_file_dev-nil p e = rw (h, e, sql.first_file-nil)

pub is_open-link_file : (msg : Msg) (db : Db) → (link_file msg db).1.is_open ≡ db.is_open
unfolding link_file
is_open-link_file msg db = ground arith

pub files-link_file :
    (msg : Msg) (db : Db)
    → db.is_open ≡ true
    → (link_file msg db).1.files ≡ db.files ++ new_row msg ∷ []
unfolding link_file
files-link_file msg db h = ground arith

pub path-new_row : (msg : Msg) → has_path msg ≡ true → (new_row msg).path ≡ text_of msg
unfolding new_row
path-new_row msg p = rw p

-- In an open database, a file that is linked under a path without an entry is found by that path,
-- with the device, inode, owner, mode and device numbers that it was linked with and no deletion
-- mark, if these fit their columns.
pub find-link_file :
    (sql : Sqlite) (msg q : Msg) (db : Db)
    → db.is_open ≡ true
    → has_path msg ≡ true
    → has_path q ≡ true
    → text_of q ≡ text_of msg
    → keep (at_path (text_of msg)) db.files ≡ []
    → Fits msg
    → find_file_path sql q (link_file msg db).1
      ≡ (0, record (filled msg q) { dev = msg.dev; ino = msg.ino })
find-link_file sql msg q db h p pq e absent fits =
    find_file_path-one sql q (link_file msg db).1 opened (new_row msg) pq found
    ∙ ap (λ m. (0, m)) (read_row-new_row msg q fits)
  where
    opened : (link_file msg db).1.is_open ≡ true
    opened = is_open-link_file msg db ∙ h

    found : keep (at_path (text_of q)) (link_file msg db).1.files ≡ new_row msg ∷ []
    found = rw (files-link_file msg db h, e, keep-append, absent, path-new_row msg p, str_eq_refl)
