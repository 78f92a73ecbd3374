-- ===== src/Tests/Data.antt =====
-- Messages and rows for the runs.
use pseudo.Prelude.{ℕ, ◌+◌, true, [], ◌∷◌, Str, length, pos}
use pseudo.Message.{MsgType, Op, Res, Msg}
use pseudo.Db.Tables.{FileRow, XattrRow, Db}

-- "/a/b", and its file "/a/b/c"
abbrev pub dir_path : Str
dir_path = b'/' ∷ b'a' ∷ b'/' ∷ b'b' ∷ []

abbrev pub file_path : Str
file_path = b'/' ∷ b'a' ∷ b'/' ∷ b'b' ∷ b'/' ∷ b'c' ∷ []

abbrev pub new_path : Str
new_path = b'/' ∷ b'd' ∷ []

abbrev pub mode_file : ℕ
mode_file = 0o100644

-- a request of client 3 on the regular file of a path, as inode 7 of device 5
abbrev pub request : Op → Str → ℕ → ℕ → Msg
request op path uid mode = record {
  type = MsgType.op;
  op = op;
  result = Res.result_none;
  access = 0;
  client = 3;
  fd = 0;
  dev = 5;
  ino = 7;
  uid = uid;
  gid = 100;
  mode = mode;
  rdev = 0;
  pathlen = length path + 1;
  nlink = 1;
  deleting = 0;
  path = path;
}

-- an entry that root owns
abbrev pub entry : Str → ℕ → FileRow
entry path ino = record {
  path = path;
  dev = pos 5;
  ino = pos ino;
  uid = pos 0;
  gid = pos 0;
  mode = pos mode_file;
  rdev = pos 0;
  deleting = pos 0;
}

abbrev pub no_files : Db
no_files = record { is_open = true; files = []; xattrs = [] }

-- the file, its directory, and a file elsewhere
abbrev pub three_files : Db
three_files = record {
  is_open = true;
  files = entry dir_path 6 ∷ entry file_path 7 ∷ entry new_path 8 ∷ [];
  xattrs = [];
}

-- "user.x", a NUL and the value "yes"
abbrev pub name_and_value : Str
name_and_value = b'u' ∷ b's' ∷ b'e' ∷ b'r' ∷ b'.' ∷ b'x' ∷ 0 ∷ b'y' ∷ b'e' ∷ b's' ∷ []

-- the attribute of inode 7
abbrev pub attribute : XattrRow
attribute = record {
  id = 1;
  dev = pos 5;
  ino = pos 7;
  name = b'u' ∷ b's' ∷ b'e' ∷ b'r' ∷ b'.' ∷ b'x' ∷ [];
  value = b'n' ∷ b'o' ∷ [];
}

abbrev pub with_attribute : Db
with_attribute = record three_files { xattrs = attribute ∷ [] }
