-- ===== src/Server/Lookup.antt =====
-- The second part of pseudo_op (pseudo.c): the entries found by path and inode, by path, and by
-- inode, and the sanity checks that drop entries which cannot be right.
use pseudo.Prelude.{
  Bool, true, false, not, ◌&&◌, Option, none, some, [], Str, str_eq, c_str, ◌==◌, if◌then◌else◌,
}
use pseudo.Message.{Msg, Op, assign, is_dir, is_lnk}
use pseudo.Db.Tables.{Sqlite, nameless}
use pseudo.Db.Files.{
  text_of, has_path, find_file_exact, find_file_path, find_file_dev, did_unlink_file, unlink_file,
  unlink_file_dev, update_file_path,
}
use pseudo.Server.Context.{Context}

abbrev pub has_inode : Msg → Bool
has_inode m = not (m.dev == 0) && not (m.ino == 0)

abbrev pub is_some {ℓ} : {A : Type ℓ} → Option A → Bool
is_some none = false
is_some (some a) = true

abbrev pub is_op : Op → Op → Bool
is_op Op.did_unlink Op.did_unlink = true
is_op Op.exec Op.exec = true
is_op _ _ = false

module _ (sql : Sqlite) where
  -- by path, device and inode
  unfoldable pub find_exact : Context → Context
  find_exact c =
      let (rc, m) = find_file_exact sql c.msg c.db in
      if has_path c.msg && has_inode c.msg && rc == 0
      then record c {
        msg = assign m c.header;
        by_path = m;
        by_ino = m;
        found_path = true;
        found_ino = true;
        found_exact = true;
        path_by_ino = some (text_of c.msg);
      }
      else c

  -- by path; the message takes the fields of the entry
  unfoldable pub find_path : Context → Context
  find_path c =
      let (rc, m) = find_file_path sql c.msg c.db in
      if has_path c.msg && rc == 0 then record c { msg = m; by_path = m; found_path = true } else c

  -- by the original device and inode
  unfoldable pub find_ino : Context → Context
  find_ino c =
      let (rc, m, path) = find_file_dev sql c.by_ino c.path_by_ino c.db in
      if has_inode c.msg && rc == 0
      then record c { by_ino = m; path_by_ino = path; found_ino = true }
      else c

  unfoldable pub find_entries : Context → Context
  find_entries c = let e = find_exact c in if e.found_exact then e else find_ino (find_path e)

-- An entry at the path that has another inode and was marked for deletion is deleted.
unfoldable pub drop_marked : Context → Context
drop_marked c =
    if not (c.by_path.ino == c.header.ino)
      && not (c.header.ino == 0)
      && not (is_op c.msg.op Op.exec)
      && not (c.by_path.deleting == 0)
    then record c { db = (did_unlink_file c.msg.path none c.by_path.deleting c.db).1 }
    else c

abbrev pub bool_eq : Bool → Bool → Bool
bool_eq true b = b
bool_eq false b = not b

-- the two modes agree on S_ISDIR and on S_ISLNK
abbrev pub same_kind : Msg → Msg → Bool
same_kind a b = bool_eq (is_dir a.mode) (is_dir b.mode) && bool_eq (is_lnk a.mode) (is_lnk b.mode)

unfoldable pub check_path : Context → Context
check_path c =
    let d = drop_marked c in
    if c.found_path && not (is_op c.msg.op Op.did_unlink)
    then (if same_kind c.by_path c.header
        then d
        else record d { db = (unlink_file d.msg d.db).1; found_path = false })
    else c

abbrev pub old_text : Option Str → Str
old_text none = []
old_text (some s) = c_str s

-- `mismatch` in the switch over the operation
unfoldable pub is_mismatch : Op → Context → Str → Bool
is_mismatch Op.link c found = false
is_mismatch Op.exec c found = false
is_mismatch Op.rename c found = c.msg.nlink == 1 && not (str_eq (old_text c.oldpath) found)
is_mismatch _ c found = not (str_eq (text_of c.msg) found) && not (str_eq found nameless)

-- `none` is the jump to op_exit.
unfoldable pub match_paths : Option Str → Context → Option Context
match_paths none c =
    some (if has_path c.msg then record c { db = (update_file_path c.msg c.db).1 } else c)
match_paths (some found) c =
    if has_path c.msg && is_mismatch c.msg.op c found && c.by_ino.deleting == 0
    then none
    else some c

unfoldable pub drop_wrong_kind : Context → Context
drop_wrong_kind c =
    if same_kind c.by_ino c.header
    then c
    else record c { db = (unlink_file_dev c.msg c.db).1; found_ino = false }

abbrev pub map_option {ℓ κ} : {A : Type ℓ} {B : Type κ} → (A → B) → Option A → Option B
map_option f none = none
map_option f (some a) = some (f a)

unfoldable pub check_ino : Context → Option Context
check_ino c =
    if c.found_ino && not (is_op c.msg.op Op.did_unlink)
    then map_option drop_wrong_kind (match_paths c.path_by_ino c)
    else some c
