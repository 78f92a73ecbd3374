-- ===== src/Server/Check.antt =====
-- The check of the database against the file system: pseudo_db_check of pseudo.c with pdb_files and
-- pdb_file of pseudo_db.c, where the statement can be prepared, every step succeeds and memory does not
-- run out. Whether a SELECT sees the changes that are made while it runs is undefined in SQLite, so
-- the rows that it steps to are a parameter.
use pseudo.Prelude.{
  ℕ, ◌+◌, Bool, false, not, ◌&&◌, ◌||◌, Option, none, some, List, [], ◌∷◌, ◌++◌, Str, c_str, length,
  ◌==◌, if◌then◌else◌,
}
use pseudo.Message.{Msg, is_dir, is_lnk}
use pseudo.Db.Column.{to_u64, to_u32}
use pseudo.Db.Tables.{FileRow, Db, Sqlite}
use pseudo.Db.Files.{text_of, update_inode, may_unlink_file, did_unlink_files}
use pseudo.Server.Lookup.{bool_eq}
use pseudo.Client.Request.{Stat}

-- pdb_file; `fresh` is what the memory of the new message holds.
unfoldable pub file_message : Msg → FileRow → Msg
file_message fresh r = record fresh {
  path = c_str r.path ++ 0 ∷ [];
  pathlen = length (c_str r.path) + 1;
  dev = to_u64 r.dev;
  ino = to_u64 r.ino;
  uid = to_u32 r.uid;
  gid = to_u32 r.gid;
  mode = to_u64 r.mode;
  rdev = to_u64 r.rdev;
}

-- S_ISLNK and S_ISDIR give the same.
abbrev pub same_type : ℕ → ℕ → Bool
same_type a b = bool_eq (is_lnk a) (is_lnk b) && bool_eq (is_dir a) (is_dir b)

abbrev pub same_inode : Stat → Msg → Bool
same_inode st m = st.ino == m.ino && st.dev == m.dev

-- 2: the entry is deleted; 1: its inode is corrected
unfoldable pub fixup_needed : Stat → Msg → ℕ
fixup_needed st m = if not (same_type st.mode m.mode) then 2 else if same_inode st m then 0 else 1

-- The variables of the loop
pub record Scan : Type 0 where
  pub errors : ℕ
  pub delete_some : Bool
  pub db : Db

-- `cookie` is the process id. Before the n-th row from the end, `held n` is what pdb_update_inode's
-- buffer holds and `fresh n` what the new memory does.
module _ (sql : Sqlite) (lstat : Str → Option Stat) (held fresh : ℕ → Msg) (cookie : ℕ)
    (fix : Bool) where
  -- From do_fixup on
  unfoldable pub do_fixup : ℕ → ℕ → Msg → Scan → Scan
  do_fixup n needed m s =
      let done =
        if needed == 1 then update_inode sql (held n) m s.db else may_unlink_file m cookie s.db in
      if needed == 0 then s else if not fix then record s { errors = 1 } else record {
        errors = if done.0 == 0 then s.errors else 1;
        delete_some = needed == 2 || s.delete_some;
        db = done.1;
      }

  -- Without `fix`, a file that lstat fails for is an error, too.
  unfoldable pub check_file : ℕ → Msg → Scan → Scan
  unfolding do_fixup fixup_needed
  check_file n m s = if m.pathlen == 0 then s else elim (lstat (text_of m)) [
    | none ↦ do_fixup n 2 m s
    | some st ↦ do_fixup n (fixup_needed st m) (record m { ino = st.ino; dev = st.dev }) s
  ]

  unfoldable pub scan : List FileRow → Scan → Scan
  unfolding check_file file_message
  scan [] s = s
  scan (r ∷ rows) s = scan rows (check_file (length rows) (file_message (fresh (length rows)) r) s)

  abbrev pub finish : Scan → ℕ × Db
  finish s =
      let done = did_unlink_files cookie s.db in
      if s.delete_some then ((if done.0 == 0 then s.errors else 1), done.1) else (s.errors, s.db)

  unfoldable pub db_check : List FileRow → Db → ℕ × Db
  unfolding scan
  db_check rows db =
      if db.is_open
      then finish (scan rows (record { errors = 0; delete_some = false; db = db }))
      else (1, db)
