-- ===== src/Server/Handlers.antt =====
-- The switch over the operations in pseudo_op (pseudo.c), a function for each group of cases.
use pseudo.Prelude.{
  ℕ, Bool, true, false, not, ◌&&◌, ◌||◌, Option, none, some, [], Str, ◌==◌, if◌then◌else◌,
}
use pseudo.Message.{Msg, Op, Res, assign, merge_mode}
use pseudo.Db.Tables.{Db, Sqlite}
use pseudo.Db.Files.{
  link_file, unlink_file, unlink_file_dev, unlink_contents, update_file, rename_file, update_inode,
  may_unlink_file, did_unlink_file, cancel_unlink_file,
}
use pseudo.Db.Xattrs.{get_xattr, list_xattr, set_xattr, remove_xattr, xattr_create, xattr_replace}
use pseudo.Server.Context.{Context}

abbrev pub with_db : Context → ℕ × Db → Context
with_db c r = record c { db = r.1 }

abbrev pub with_result : Context → Res → Context
with_result c r = record c { msg = record c.msg { result = r } }

unfoldable pub do_creat : Context → Context
do_creat c =
    let d =
      if c.found_ino && not c.found_exact then with_db c (unlink_file_dev c.by_ino c.db) else c in
    if c.found_path then d else with_db d (link_file d.msg d.db)

-- Shared by chmod and chown: `merge` puts what the request changes into the entry's data.
unfoldable pub change_file : (Msg → Msg → Msg) → Context → Context
change_file merge c =
    let by_ino = merge c.header (assign c.msg c.by_ino) in
    let by_path = merge c.header (assign c.msg c.by_path) in
    if c.found_ino
    then record c { msg = by_ino; db = (update_file by_ino c.db).1 }
    else if c.found_path
    then record c { msg = by_path; db = (update_file by_path c.db).1 }
    else c

unfoldable pub set_mode : Msg → Msg → Msg
set_mode header m = record m { mode = merge_mode header.mode m.mode }

unfoldable pub set_owner : Msg → Msg → Msg
set_owner header m = record m { uid = header.uid; gid = header.gid }

unfoldable pub do_chmod : Context → Context
do_chmod c =
    let m = record c.msg { mode = c.header.mode } in
    if c.found_ino || c.found_path
    then change_file set_mode c
    else record c { msg = m; db = (link_file m c.db).1 }

unfoldable pub do_chown : Context → Context
do_chown c =
    let m = set_owner c.header c.msg in
    if c.found_ino || c.found_path
    then change_file set_owner c
    else record c { msg = m; db = (link_file m c.db).1 }

-- `db_header`: by inode for the f* operations or if there is no entry by path, else by path
unfoldable pub do_stat : Context → Context
do_stat c =
    if c.found_ino && (c.prefer_ino || not c.found_path)
    then record c { msg = assign c.msg c.by_ino }
    else if c.found_path
    then record c { msg = assign c.msg c.by_path }
    else with_result c Res.fail

unfoldable pub do_link : Bool → Context → Context
do_link is_symlink c =
    let d = if c.found_path then with_db c (unlink_file c.msg c.db) else c in
    let e =
      if d.found_ino
      then (if is_symlink then d else record d { msg = assign d.msg d.by_ino })
      else record d { msg = assign d.msg d.header } in
    with_db e (link_file e.msg e.db)

unfoldable pub do_may_unlink : Context → Context
do_may_unlink c =
    let (rc, db) = may_unlink_file c.msg c.msg.client c.db in
    let d = record c { db = db } in if rc == 0 then d else with_result d Res.fail

unfoldable pub do_unlink : Context → Context
do_unlink c =
    let d = with_db c (unlink_file c.msg c.db) in
    let e = with_db d (unlink_contents d.msg d.db) in
    let f =
      if c.header.nlink == 1 && c.found_ino then with_db e (unlink_file_dev e.msg e.db) else e in
    with_result f Res.result_none

unfoldable pub do_mknod : Context → Context
do_mknod c =
    let d = if c.found_path then with_db c (unlink_file c.msg c.db) else c in
    let e = if d.found_ino then with_db d (unlink_file_dev d.by_ino d.db) else d in
    let m = assign e.msg e.header in record e { msg = m; db = (link_file m e.db).1 }

-- the buffer behind `oldpath`
abbrev pub buffer_of : Option Str → Str
buffer_of none = []
buffer_of (some s) = s

module _ (sql : Sqlite) where
  unfoldable pub do_get_xattr : Context → Context
  do_get_xattr c =
      let (rc, value, len) = get_xattr sql c.msg (buffer_of c.oldpath) c.oldpathlen c.db in
      if rc == 0
      then record c { response = some value; response_len = len }
      else with_result c Res.fail

  unfoldable pub do_list_xattr : Context → Context
  do_list_xattr c =
      let (rc, value, len) = list_xattr sql c.msg (buffer_of c.oldpath) c.oldpathlen c.db in
      if rc == 0
      then record c { response = some value; response_len = len }
      else with_result c Res.fail

  unfoldable pub do_set_xattr : ℕ → Context → Context
  do_set_xattr flags c =
      let (rc, db) = set_xattr sql c.msg (buffer_of c.oldpath) c.oldpathlen flags c.db in
      let d = record c { db = db } in if rc == 0 then d else with_result d Res.fail

  -- `held` is the content of pdb_update_inode's static buffer after its memcpy.
  unfoldable pub do_rename : Msg → Context → Context
  do_rename held c =
      let d = with_db c (rename_file sql c.oldpath c.msg c.db) in
      with_db d (update_inode sql held d.msg d.db)

  unfoldable pub dispatch : Msg → Op → Context → Context
  dispatch held Op.creat c = do_creat c
  dispatch held Op.chmod c = do_chmod c
  dispatch held Op.fchmod c = do_chmod c
  dispatch held Op.chown c = do_chown c
  dispatch held Op.fchown c = do_chown c
  dispatch held Op.stat c = do_stat c
  dispatch held Op.fstat c = do_stat c
  dispatch held Op.link c = do_link false c
  dispatch held Op.symlink c = do_link true c
  dispatch held Op.rename c = do_rename held c
  dispatch held Op.may_unlink c = do_may_unlink c
  dispatch held Op.did_unlink c =
      with_db c (did_unlink_file c.msg.path (some c.msg) c.msg.client c.db)
  dispatch held Op.cancel_unlink c = with_db c (cancel_unlink_file c.msg c.db)
  dispatch held Op.unlink c = do_unlink c
  dispatch held Op.mkdir c = do_mknod c
  dispatch held Op.mknod c = do_mknod c
  dispatch held Op.get_xattr c = do_get_xattr c
  dispatch held Op.list_xattr c = do_list_xattr c
  dispatch held Op.create_xattr c = do_set_xattr xattr_create c
  dispatch held Op.replace_xattr c = do_set_xattr xattr_replace c
  dispatch held Op.set_xattr c = do_set_xattr 0 c
  dispatch held Op.remove_xattr c =
      with_db c (remove_xattr c.msg (buffer_of c.oldpath) c.oldpathlen c.db)
  dispatch held _ c = c
