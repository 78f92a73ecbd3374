-- ===== src/Db/Files.antt =====
-- The operations on the table `files` in pseudo_db.c. A function returns its C result and what it
-- changes: the database, or the message that a SELECT fills in.
use pseudo.Prelude.{
  ℕ, Bool, not, ◌&&◌, Option, none, some, List, [], ◌∷◌, ◌++◌, keep, update_where, Str, str_eq,
  c_str, int_eq, ◌==◌, if◌then◌else◌,
}
use pseudo.Message.{Msg}
use pseudo.Db.Column.{as_int, as_int64, to_u64, to_u32}
use pseudo.Db.Tables.{FileRow, Db, Sqlite, at_path, at_inode, nameless, is_nil}
use pseudo.Db.Order.{in_subtree}
use pseudo.Db.Xattrs.{
  dev_key, ino_key, clear_unused_xattrs, clear_xattrs, check_xattrs, copy_xattrs,
}

-- the path that a statement is bound to: `msg->path` up to its NUL
abbrev pub text_of : Msg → Str
text_of msg = c_str msg.path

abbrev pub has_path : Msg → Bool
has_path msg = not (msg.pathlen == 0)

unfoldable pub new_row : Msg → FileRow
new_row msg = record {
  path = if has_path msg then text_of msg else nameless;
  dev = dev_key msg;
  ino = ino_key msg;
  uid = as_int msg.uid;
  gid = as_int msg.gid;
  mode = as_int msg.mode;
  rdev = as_int msg.rdev;
  deleting = as_int 0;
}

unfoldable pub link_file : Msg → Db → ℕ × Db
unfolding new_row
link_file msg db =
    if db.is_open then (0, record db { files = db.files ++ new_row msg ∷ [] }) else (0, db)

unfoldable pub unlink_file_dev : Msg → Db → ℕ × Db
unfolding clear_xattrs
unlink_file_dev msg db =
    if db.is_open
    then (
      0,
      clear_xattrs msg
          (record db { files = keep (λ r. not (at_inode (dev_key msg) (ino_key msg) r)) db.files }),
    )
    else (0, db)

unfoldable pub update_file_path : Msg → Db → ℕ × Db
update_file_path msg db =
    if not db.is_open then (0, db) else if not (has_path msg) then (1, db) else (
      0,
      record db {
        files =
            update_where
              (λ r. str_eq r.path nameless && at_inode (dev_key msg) (as_int64 msg.ino) r)
              (λ r. record r { path = text_of msg }) db.files;
      },
    )

-- UPDATE files SET deleting = ? WHERE path = ?
unfoldable pub mark_path : Str → ℕ → List FileRow → List FileRow
mark_path path deleting = update_where (at_path path) (λ r. record r { deleting = as_int deleting })

unfoldable pub may_unlink_file : Msg → ℕ → Db → ℕ × Db
unfolding mark_path
may_unlink_file msg deleting db =
    if not db.is_open then (0, db) else if not (has_path msg) then (1, db) else (
      (if is_nil (keep (at_path (text_of msg)) db.files) then 1 else 0),
      record db { files = mark_path (text_of msg) deleting db.files },
    )

unfoldable pub cancel_unlink_file : Msg → Db → ℕ × Db
unfolding mark_path check_xattrs
cancel_unlink_file msg db =
    if not db.is_open
    then (0, db)
    else if not (has_path msg)
    then (1, db)
    else (0, check_xattrs msg (record db { files = mark_path (text_of msg) 0 db.files }))

unfoldable pub did_unlink_files : ℕ → Db → ℕ × Db
unfolding clear_unused_xattrs
did_unlink_files deleting db =
    if not db.is_open then (0, db) else if deleting == 0 then (0, db) else (
      0,
      clear_unused_xattrs
          (record db { files = keep (λ r. not (int_eq r.deleting (as_int deleting))) db.files }),
    )

-- `msg` is null where the caller does not trust the message's inode.
unfoldable pub sweep_xattrs : Option Msg → Db → Db
unfolding clear_xattrs clear_unused_xattrs
sweep_xattrs (some msg) db = clear_xattrs msg db
sweep_xattrs none db = clear_unused_xattrs db

unfoldable pub did_unlink_file : Str → Option Msg → ℕ → Db → ℕ × Db
unfolding sweep_xattrs
did_unlink_file path msg deleting db = if not db.is_open then (0, db) else (
  0,
  sweep_xattrs msg (record db {
    files =
        keep (λ r. not (at_path (c_str path) r && int_eq r.deleting (as_int deleting))) db.files;
  }),
)

unfoldable pub unlink_file : Msg → Db → ℕ × Db
unfolding check_xattrs
unlink_file msg db = if not db.is_open then (0, db) else if not (has_path msg) then (1, db) else (
  0,
  check_xattrs msg (record db { files = keep (λ r. not (at_path (text_of msg) r)) db.files }),
)

unfoldable pub unlink_contents : Msg → Db → ℕ × Db
unfolding clear_unused_xattrs
unlink_contents msg db =
    if not db.is_open then (0, db) else if not (has_path msg) then (1, db) else (
      0,
      clear_unused_xattrs
          (record db { files = keep (λ r. not (in_subtree (text_of msg) r.path)) db.files }),
    )

-- change uid, gid, mode and rdev of every entry with the message's device and inode
unfoldable pub update_file : Msg → Db → ℕ × Db
update_file msg db =
    if db.is_open
    then (
      0,
      record db {
        files =
            update_where (at_inode (dev_key msg) (ino_key msg))
              (λ r. record r {
                uid = as_int msg.uid;
                gid = as_int msg.gid;
                mode = as_int msg.mode;
                rdev = as_int msg.rdev;
              })
              db.files;
      },
    )
    else (0, db)

unfoldable pub renumber_all : ℕ → ℕ → Db → ℕ × Db
renumber_all from to db =
    if db.is_open
    then (
      0,
      record db {
        files =
            update_where (λ r. int_eq r.dev (as_int from)) (λ r. record r { dev = as_int to })
              db.files;
        xattrs =
            update_where (λ x. int_eq x.dev (as_int from)) (λ x. record x { dev = as_int to })
              db.xattrs;
      },
    )
    else (0, db)

-- what pdb_find_file_exact and pdb_find_file_dev take from a row
unfoldable pub read_owner : FileRow → Msg → Msg
read_owner r msg = record msg {
  uid = to_u32 r.uid;
  gid = to_u32 r.gid;
  mode = to_u64 r.mode;
  rdev = to_u64 r.rdev;
  deleting = to_u32 r.deleting;
}

-- pdb_find_file_path takes the device and inode too.
unfoldable pub read_row : FileRow → Msg → Msg
unfolding read_owner
read_row r msg = record (read_owner r msg) { dev = to_u64 r.dev; ino = to_u64 r.ino }

exact_result : Option FileRow → Msg → ℕ × Msg
exact_result none msg = (1, msg)
exact_result (some r) msg = (0, read_owner r msg)

path_result : Option FileRow → Msg → ℕ × Msg
path_result none msg = (1, msg)
path_result (some r) msg = (0, read_row r msg)

dev_result : Option FileRow → Msg → Option Str → ℕ × Msg × Option Str
dev_result none msg path = (1, msg, path)
dev_result (some r) msg path = (0, read_owner r msg, some r.path)

named : Option FileRow → Option Str
named none = none
named (some r) = if str_eq r.path nameless then none else some r.path

ino_result : Option FileRow → Msg → ℕ × Msg
ino_result none msg = (1, msg)
ino_result (some r) msg = (0, record (read_owner r msg) { dev = to_u64 r.dev })

module _ (sql : Sqlite) where
  unfoldable pub find_file_exact : Msg → Db → ℕ × Msg
  unfolding exact_result read_owner
  find_file_exact msg db =
      if db.is_open
      then exact_result
          (sql.first_file (
            keep (λ r. at_path (text_of msg) r && at_inode (dev_key msg) (ino_key msg) r) db.files))
          msg
      else (0, msg)

  unfoldable pub find_file_path : Msg → Db → ℕ × Msg
  unfolding path_result read_row
  find_file_path msg db =
      if not db.is_open
      then (1, msg)
      else if not (has_path msg)
      then (1, msg)
      else path_result (sql.first_file (keep (at_path (text_of msg)) db.files)) msg

  unfoldable pub get_file_path : Msg → Db → Option Str
  unfolding named
  get_file_path msg db =
      if db.is_open
      then named (sql.first_file (keep (at_inode (dev_key msg) (ino_key msg)) db.files))
      else none

  -- `path` is the caller's variable that the found path is stored in.
  unfoldable pub find_file_dev : Msg → Option Str → Db → ℕ × Msg × Option Str
  unfolding dev_result read_owner
  find_file_dev msg path db =
      if db.is_open
      then dev_result (sql.first_file (keep (at_inode (dev_key msg) (ino_key msg)) db.files)) msg
          path
      else (0, msg, path)

  unfoldable pub find_file_ino : Msg → Db → ℕ × Msg
  unfolding ino_result read_owner
  find_file_ino msg db =
      if db.is_open
      then ino_result (sql.first_file (keep (λ r. int_eq r.ino (ino_key msg)) db.files)) msg
      else (0, msg)

  -- Both UPDATE statements, in their order; `oldpath` is null if the message has none.
  unfoldable pub rename_rows : Str → Str → List FileRow → List FileRow
  rename_rows old new rows =
      update_where (λ r. in_subtree old r.path)
        (λ r. record r { path = sql.replace r.path old new; deleting = as_int 0 })
        (update_where (at_path old) (λ r. record r { path = new; deleting = as_int 0 }) rows)

  rename_result : Option Str → Msg → Db → ℕ × Db
  rename_result none msg db = (1, db)
  rename_result (some oldpath) msg db =
      (1, record db { files = rename_rows (c_str oldpath) (text_of msg) db.files })

  -- END returns SQLITE_OK (0), which is not SQLITE_DONE: the result is 1 on this branch.
  unfoldable pub rename_file : Option Str → Msg → Db → ℕ × Db
  unfolding rename_rows rename_result
  rename_file oldpath msg db =
      if not db.is_open
      then (0, db)
      else if not (has_path msg)
      then (1, db)
      else rename_result oldpath msg db

  -- `held` is what the static buffer `oldmsg` holds after the memcpy, which copies
  -- sizeof (msg) + pathlen bytes: the size of a pointer, not of the header.
  unfoldable pub update_inode : Msg → Msg → Db → ℕ × Db
  unfolding copy_xattrs check_xattrs find_file_path
  update_inode held msg db =
      let found = find_file_path held db in
      let exists = found.0 == 0 in
      let oldmsg = found.1 in
      let copied = if exists then copy_xattrs sql oldmsg msg db else db in
      let updated : Db = record copied {
        files =
            update_where (at_path (text_of msg))
              (λ r. record r { dev = dev_key msg; ino = ino_key msg }) copied.files;
      } in
      if not db.is_open
      then (0, db)
      else if not (has_path msg)
      then (1, db)
      else (0, if exists then check_xattrs oldmsg updated else updated)
