-- ===== src/Db/Corrected.antt =====
-- What the corrections of the check of a database do to its entries: pdb_update_inode moves those at
-- a path to another inode, pdb_may_unlink_file and pdb_did_unlink_files mark and delete them.
use pseudo.Prelude.{
  ℕ, ◌≡◌, ◌≢◌, refl, ap, ◌∙◌, Bool, true, false, not, keep, update_where, ◌==◌, int_eq,
  if◌then◌else◌, arith,
}
use pseudo.Message.{Msg}
use pseudo.Db.Column.{as_int}
use pseudo.Db.Tables.{FileRow, Db, Sqlite, at_path}
use pseudo.Db.Xattrs.{
  dev_key, ino_key, copy_xattrs, check_xattrs, clear_xattrs, clear_unused_xattrs,
}
use pseudo.Db.Files.{
  text_of, has_path, update_inode, may_unlink_file, mark_path, did_unlink_files, find_file_path,
}

abbrev pub relocated : Msg → FileRow → FileRow
relocated m r = record r { dev = dev_key m; ino = ino_key m }

abbrev pub marked : ℕ → FileRow → FileRow
marked cookie r = record r { deleting = as_int cookie }

-- What the two corrections and the deletion at the end do to the table.
check_xattrs-files :
    (m : Msg) (db : Db)
    → ((check_xattrs m db).files ≡ db.files) × ((check_xattrs m db).is_open ≡ db.is_open)
unfolding check_xattrs clear_xattrs
check_xattrs-files m db = ground arith

copy_xattrs-files :
    (sql : Sqlite) (old m : Msg) (db : Db)
    → ((copy_xattrs sql old m db).files ≡ db.files)
      × ((copy_xattrs sql old m db).is_open ≡ db.is_open)
unfolding copy_xattrs
copy_xattrs-files sql old m db = ground arith

-- The attributes are copied before and cleaned up after, where the entry was found.
moved_entries :
    (sql : Sqlite) (found : Bool) (old m : Msg) (db : Db)
    → let copied = if found then copy_xattrs sql old m db else db in
      let updated : Db = record copied {
        files = update_where (at_path (text_of m)) (relocated m) copied.files;
      } in
      ((if found then check_xattrs old updated else updated).files
        ≡ update_where (at_path (text_of m)) (relocated m) db.files)
      × ((if found then check_xattrs old updated else updated).is_open ≡ db.is_open)
moved_entries sql true old m db = (
  (check_xattrs-files old _).0
      ∙ ap (update_where (at_path (text_of m)) (relocated m)) (copy_xattrs-files sql old m db).0,
  (check_xattrs-files old _).1 ∙ (copy_xattrs-files sql old m db).1,
)
moved_entries sql false old m db = (refl, refl)

reached :
    (a b : Bool) (x y z : ℕ × Db)
    → a ≡ true
    → b ≡ true
    → (if not a then x else if not b then y else z) ≡ z
reached true true x y z h p = refl
reached true false x y z h p = cc
reached false b x y z h p = cc

pub update_inode-files :
    (sql : Sqlite) (held m : Msg) (db : Db)
    → db.is_open ≡ true
    → has_path m ≡ true
    → ((update_inode sql held m db).1.files
        ≡ update_where (at_path (text_of m)) (relocated m) db.files)
      × ((update_inode sql held m db).1.is_open ≡ true)
unfolding update_inode
update_inode-files sql held m db h p =
    let found = find_file_path sql held db in
    let moved = moved_entries sql (found.0 == 0) found.1 m db in
    let run = reached db.is_open (has_path m) (0, db) (1, db) _ h p in
    (ap (λ x. x.1.files) run ∙ moved.0, ap (λ x. x.1.is_open) run ∙ moved.1 ∙ h)

pub may_unlink_file-files :
    (m : Msg) (cookie : ℕ) (db : Db)
    → db.is_open ≡ true
    → has_path m ≡ true
    → ((may_unlink_file m cookie db).1.files
        ≡ update_where (at_path (text_of m)) (marked cookie) db.files)
      × ((may_unlink_file m cookie db).1.is_open ≡ true)
unfolding may_unlink_file mark_path
may_unlink_file-files m cookie db h p = ground arith

pub did_unlink_files-files :
    (cookie : ℕ) (db : Db)
    → db.is_open ≡ true
    → cookie ≢ 0
    → (did_unlink_files cookie db).1.files
      ≡ keep (λ r. not (int_eq r.deleting (as_int cookie))) db.files
unfolding did_unlink_files clear_unused_xattrs
did_unlink_files-files cookie db h ne = ground arith
