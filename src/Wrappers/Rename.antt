-- ===== src/Wrappers/Rename.antt =====
-- wrap_renameat and wrap_rename of ports/unix/guts. `oldbuf` and `newbuf` are what the two buffers hold
-- before the calls to stat fill them: the code uses them also where a stat has failed.
use pseudo.Prelude.{Bool, false, ◌&&◌, ◌==◌, not, Option, none, some, Str, ℤ, if◌then◌else◌}
use pseudo.Message.{Msg, may_unlink, did_unlink, cancel_unlink, stat, link, rename}
use pseudo.Client.Request.{Stat, Request}
use pseudo.Wrappers.Calls.{
  RealCall, Wrapper, return, base_fstatat, base_lstat, real_call, client_op, real_renameat,
  real_rename, ◌>>=◌, ◌>>◌, minus_one, at_symlink_nofollow, failed, succeeded, filled, on_path,
  op_if,
}

-- newrc != -1 && oldrc != -1, and both are the same file
abbrev pub same_file : Option Stat → Option Stat → Bool
same_file none new = false
same_file (some old) none = false
same_file (some old) (some new) = (new.dev == old.dev) && (new.ino == old.ino)

-- The buffer of the entry made under the old name: across devices it takes the device and the inode of
-- the file that was replaced.
abbrev pub linked_buf : Stat → Option Stat → Stat
linked_buf oldbuf none = oldbuf
linked_buf oldbuf (some new) =
    if new.dev == oldbuf.dev then oldbuf else record oldbuf { dev = new.dev; ino = new.ino }

-- The request of a rename: `fd` is the directory of the old path.
abbrev pub rename_request : ℤ → ℤ → Str → Stat → Str → Request
rename_request olddirfd newdirfd newpath buf oldpath = record {
  op = rename;
  access = 0;
  fd = olddirfd;
  dirfd = newdirfd;
  path = some newpath;
  buf = some buf;
  extra = some oldpath;
  value = none;
}

module _ (oldbuf newbuf : Stat) where
  -- After a failed rename both marks are taken back.
  abbrev pub take_back :
      ℤ → Str → ℤ → Str → Option Stat → Option Stat → Option Msg → Option Msg → Wrapper → Wrapper
  take_back olddir oldpath newdir newpath old new marked_new marked_old rest = do
    op_if (succeeded marked_new) (on_path cancel_unlink newdir newpath (some (filled newbuf new)))
    op_if (succeeded marked_old) (on_path cancel_unlink olddir oldpath (some (filled oldbuf old)))
    rest

  -- After a rename the server forgets the file that was replaced, and the entry moves.
  abbrev pub move_entry :
      ℤ → Str → ℤ → Str → Option Stat → Option Stat → Option Msg → Option Msg → Wrapper → Wrapper
  move_entry olddir oldpath newdir newpath old new marked_new entry rest =
      let buf = filled oldbuf old in
      let buf' = if succeeded entry then buf else linked_buf buf new in
      do
        op_if (succeeded marked_new) (on_path did_unlink newdir newpath (some (filled newbuf new)))
        op_if (not (succeeded entry)) (on_path link olddir oldpath (some buf'))
        client_op (rename_request olddir newdir newpath buf' oldpath)
        rest

  -- The common part of the two functions: `rename_call` is the real call.
  abbrev pub rename_marked : RealCall → ℤ → Str → ℤ → Str → Option Stat → Option Stat → Wrapper
  rename_marked rename_call olddir oldpath newdir newpath old new = do
    marked_new ← client_op (on_path may_unlink newdir newpath new)
    marked_old ← client_op (on_path may_unlink olddir oldpath old)
    entry ← client_op (on_path stat olddir oldpath old)
    rc ← real_call rename_call
    if failed rc
        then take_back olddir oldpath newdir newpath old new marked_new marked_old (return rc)
        else move_entry olddir oldpath newdir newpath old new marked_new entry (return rc)

  -- Nothing is to do for the rename of a link to itself.
  abbrev pub rename_known : RealCall → ℤ → Str → ℤ → Str → Option Stat → Option Stat → Wrapper
  rename_known rename_call olddir oldpath newdir newpath old new =
      if same_file old new
      then real_call rename_call return
      else rename_marked rename_call olddir oldpath newdir newpath old new

  unfoldable pub renameat : ℤ → Option Str → ℤ → Option Str → Wrapper
  renameat olddirfd none newdirfd newpath = return minus_one
  renameat olddirfd (some oldpath) newdirfd none = return minus_one
  renameat olddirfd (some oldpath) newdirfd (some newpath) = do
    old ← base_fstatat olddirfd oldpath at_symlink_nofollow
    new ← base_fstatat newdirfd newpath at_symlink_nofollow
    rename_known (real_renameat olddirfd oldpath newdirfd newpath) olddirfd oldpath newdirfd newpath
        old new

  unfoldable pub rename_path : Option Str → Option Str → Wrapper
  rename_path none newpath = return minus_one
  rename_path (some oldpath) none = return minus_one
  rename_path (some oldpath) (some newpath) = do
    new ← base_lstat newpath
    old ← base_lstat oldpath
    rename_known (real_rename oldpath newpath) minus_one oldpath minus_one newpath old new
