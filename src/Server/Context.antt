-- ===== src/Server/Context.antt =====
-- The local variables of pseudo_op (pseudo.c), and its first part: the split of the path buffer of
-- a rename or an extended attribute, and the trailing slash.
use pseudo.Prelude.{
  ℕ, ◌+◌, ◌-◌, ◌%◌, ◌^◌, Bool, true, false, not, ◌&&◌, Option, none, some, Str, strlen, drop, set,
  get_elem?, ◌==◌, if◌then◌else◌,
}
use pseudo.Message.{Msg, Op, Res}
use pseudo.Db.Tables.{Db}
use pseudo.Db.Files.{has_path}

pub record Context : Type 0 where
  pub msg : Msg
  pub db : Db
  pub header : Msg
  pub by_path : Msg
  pub by_ino : Msg
  pub path_by_ino : Option Str
  pub oldpath : Option Str
  pub oldpathlen : ℕ
  pub found_path : Bool
  pub found_ino : Bool
  pub found_exact : Bool
  pub prefer_ino : Bool
  pub trailing_slash : Bool
  pub response : Option Str
  pub response_len : ℕ

-- the operations that prefer the entry that is found by inode
unfoldable pub prefers_ino : Op → Bool
prefers_ino Op.fchown = true
prefers_ino Op.fchmod = true
prefers_ino Op.fstat = true
prefers_ino _ = false

-- the operations whose path buffer holds a second string behind the first NUL
unfoldable pub has_two_paths : Op → Bool
has_two_paths Op.rename = true
has_two_paths Op.create_xattr = true
has_two_paths Op.get_xattr = true
has_two_paths Op.list_xattr = true
has_two_paths Op.replace_xattr = true
has_two_paths Op.remove_xattr = true
has_two_paths Op.set_xattr = true
has_two_paths _ = false

unfoldable pub is_rename : Op → Bool
is_rename Op.rename = true
is_rename _ = false

-- buffer[i] == '/'
abbrev pub is_slash : Option ℕ → Bool
is_slash none = false
is_slash (some c) = c == b'/'

abbrev pub slash_at : Str → ℕ → Bool
slash_at s i = is_slash (get_elem? s i)

unfoldable pub fresh : Msg → Db → Context
fresh msg db =
    let m = record msg { result = Res.succeed } in
    record {
      msg = m;
      db = db;
      header = m;
      by_path = m;
      by_ino = m;
      path_by_ino = none;
      oldpath = none;
      oldpathlen = 0;
      found_path = false;
      found_ino = false;
      found_exact = false;
      prefer_ino = prefers_ino msg.op;
      trailing_slash = false;
      response = none;
      response_len = 0;
    }

-- `oldpath` points behind the first NUL, and `pathlen` becomes the length of the first string. A
-- rename loses one trailing slash of the old path.
unfoldable pub split_paths : Context → Context
split_paths c =
    let m = c.msg in
    let initial = strlen m.path in
    let old = drop (initial + 1) m.path in
    let oldlen = (m.pathlen + 2 ^ 64 - (initial + 2)) % 2 ^ 64 in
    let strip = is_rename m.op && not (oldlen == 0) && slash_at old (oldlen - 1) in
    if has_path m && has_two_paths m.op
    then (if strip
        then record c {
          msg = record m { pathlen = initial; path = set m.path (initial + oldlen) 0 };
          oldpath = some (set old (oldlen - 1) 0);
          oldpathlen = oldlen - 1;
        }
        else record c {
          msg = record m { pathlen = initial };
          oldpath = some old;
          oldpathlen = oldlen;
        })
    else c

-- The header is kept as it came; then one trailing slash of the path is dropped.
unfoldable pub stash_header : Context → Context
stash_header c =
    let m = c.msg in
    let kept = record c { header = m; by_ino = m } in
    if has_path m && slash_at m.path (m.pathlen - 1)
    then record kept {
      msg = record m { pathlen = m.pathlen - 1; path = set m.path (m.pathlen - 1) 0 };
      trailing_slash = true;
    }
    else kept
