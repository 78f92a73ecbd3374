-- ===== src/Db/Xattrs.antt =====
-- The extended attributes in pseudo_db.c: the clean-up functions pdb_clear_unused_xattrs,
-- pdb_clear_xattrs, pdb_copy_xattrs and pdb_check_xattrs, and get, list, set and remove.
-- A function returns its C result (0 for success) and the new database.
use pseudo.Prelude.{
  ℕ, ◌+◌, ◌-◌, ◌%◌, ◌^◌, Bool, true, false, not, ◌&&◌, Option, none, some, List, [], ◌∷◌, ◌++◌, map,
  keep, update_where, take, Str, c_str, past_nul, strlen, length, ℤ, pos, negsuc, int_eq, leb, ◌==◌,
  if◌then◌else◌,
}
use pseudo.Message.{Msg}
use pseudo.Db.Column.{as_int, as_int64, signed_ino}
use pseudo.Db.Tables.{XattrRow, Db, Sqlite, xattr_at, xattr_named, links, is_nil}

-- what sqlite3_bind_int and sqlite3_bind_int64 make of a message's device and inode
abbrev pub dev_key : Msg → ℤ
dev_key msg = as_int msg.dev

abbrev pub ino_key : Msg → ℤ
ino_key msg = signed_ino msg.ino

-- sqlite3_bind_text (..., text, n, ...): n bytes, or up to the NUL if n is negative
abbrev pub bound_text : ℤ → Str → Str
bound_text (pos n) text = take n text
bound_text (negsuc n) text = c_str text

unfoldable pub clear_unused_xattrs : Db → Db
clear_unused_xattrs db =
    if db.is_open
    then record db { xattrs = keep (λ x. not (is_nil (links x.dev x.ino db.files))) db.xattrs }
    else db

unfoldable pub clear_xattrs : Msg → Db → Db
clear_xattrs msg db =
    if db.is_open
    then record db {
      xattrs =
          keep
            (λ x. not (
              xattr_at (dev_key msg) (ino_key msg) x
              && is_nil (links (dev_key msg) (ino_key msg) db.files)))
            db.xattrs;
    }
    else db

unfoldable pub check_xattrs : Msg → Db → Db
unfolding clear_xattrs
check_xattrs msg db =
    if db.is_open
    then (if is_nil (links (dev_key msg) (ino_key msg) db.files) then clear_xattrs msg db else db)
    else db

unfoldable pub remove_xattr : Msg → Str → ℕ → Db → ℕ × Db
remove_xattr msg value len db =
    if db.is_open
    then (
      0,
      record db {
        xattrs =
            keep
              (λ x. not (xattr_named (dev_key msg) (ino_key msg) (bound_text (as_int len) value) x))
              db.xattrs;
      },
    )
    else (0, db)

-- each name with a NUL behind it
unfoldable pub join_names : List XattrRow → Str
join_names [] = []
join_names (x ∷ xs) = x.name ++ 0 ∷ join_names xs

-- The buffer and the length that the caller passes by reference come back changed.
get_result : Option XattrRow → Str → ℕ → ℕ × Str × ℕ
get_result none value len = (1, value, len)
get_result (some x) value len =
    if leb 1 (length x.value) then (0, x.value, length x.value) else (1, [], 0)

-- The `flags` of setxattr: 0, XATTR_CREATE (1) and XATTR_REPLACE (2).
abbrev pub xattr_create : ℕ
xattr_create = 1

abbrev pub xattr_replace : ℕ
xattr_replace = 2

is_row : Option XattrRow → Bool
is_row none = false
is_row (some x) = true

module _ (sql : Sqlite) where
  -- INSERT INTO xattrs of one row
  unfoldable pub insert_xattr : ℤ → ℤ → Str → Str → List XattrRow → List XattrRow
  insert_xattr d i name value rows =
      rows
      ++ record {
        id = sql.new_id (map (λ (x : XattrRow). x.id) rows);
        dev = d;
        ino = i;
        name = name;
        value = value;
      }
        ∷ []

  -- INSERT INTO xattrs of the rows that a SELECT has found
  unfoldable pub insert_copies : ℤ → ℤ → List XattrRow → List XattrRow → List XattrRow
  unfolding insert_xattr
  insert_copies d i [] rows = rows
  insert_copies d i (x ∷ xs) rows = insert_copies d i xs (insert_xattr d i x.name x.value rows)

  unfoldable pub copy_xattrs : Msg → Msg → Db → Db
  unfolding insert_copies
  copy_xattrs oldmsg msg db =
      if db.is_open
      then record db {
        xattrs =
            insert_copies (dev_key msg) (ino_key msg)
              (keep (xattr_at (dev_key oldmsg) (ino_key oldmsg)) db.xattrs) db.xattrs;
      }
      else db

  unfoldable pub get_xattr : Msg → Str → ℕ → Db → ℕ × Str × ℕ
  unfolding get_result
  get_xattr msg value len db =
      if db.is_open
      then get_result
          (sql.first_xattr (keep (xattr_named (dev_key msg) (ino_key msg) (c_str value)) db.xattrs))
          value len
      else (0, value, len)

  unfoldable pub list_xattr : Msg → Str → ℕ → Db → ℕ × Str × ℕ
  unfolding join_names
  list_xattr msg value len db =
      let names =
        join_names (sql.order_by_name (keep (xattr_at (dev_key msg) (ino_key msg)) db.xattrs)) in
      if db.is_open then (0, names, length names) else (0, value, len)

  unfoldable pub put_xattr : Option XattrRow → Msg → Str → Str → Db → Db
  unfolding insert_xattr
  put_xattr (some row) msg name value db = record db {
    xattrs =
        update_where (λ x. int_eq (pos x.id) (as_int row.id)) (λ x. record x { value = value })
          db.xattrs;
  }
  put_xattr none msg name value db = record db {
    xattrs = insert_xattr (as_int64 msg.dev) (ino_key msg) name value db.xattrs;
  }

  unfoldable pub set_xattr : Msg → Str → ℕ → ℕ → Db → ℕ × Db
  unfolding put_xattr is_row
  set_xattr msg value len flags db =
      let existing =
        sql.first_xattr (keep (xattr_named (dev_key msg) (ino_key msg) (c_str value)) db.xattrs) in
      let text =
        bound_text (as_int ((len + 2 ^ 64 - (strlen value + 1)) % 2 ^ 64)) (past_nul value) in
      if not db.is_open
      then (0, db)
      else if flags == xattr_create && is_row existing
      then (1, db)
      else if flags == xattr_replace && not (is_row existing)
      then (1, db)
      else (0, put_xattr existing msg (c_str value) text db)
