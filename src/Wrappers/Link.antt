-- ===== src/Wrappers/Link.antt =====
-- wrap_linkat of ports/unix/guts. `root_path` is pseudo_root_path, which gives a path without links for a
-- directory, a name and whether its last link stays; `atoi` is the C library's. `chroot` is pseudo_chroot.
use pseudo.Prelude.{
  ℕ, ◌==◌, Bool, true, false, not, ◌&&◌, [], ◌∷◌, Option, none, some, Str, length, drop, get_elem?,
  is_prefix, ℤ, if◌then◌else◌,
}
use Prim.Native.Nat.{bit_and}
use pseudo.Message.{Msg, Op, fstat, creat, open_file, stat, link}
use pseudo.Client.Request.{Stat, Request}
use pseudo.Wrappers.Calls.{
  Wrapper, return, base_fstat, base_lstat, real_call, client_op, linked_paths, real_linkat,
  real_link, ◌>>=◌, ◌>>◌, minus_one, at_fdcwd, at_symlink_nofollow, failed, succeeded, on_path,
  on_fd,
}
use pseudo.Wrappers.Change.{merged}

abbrev pub at_symlink_follow : ℕ
at_symlink_follow = 0x400

abbrev pub follows : ℕ → Bool
follows flags = not (bit_and flags at_symlink_follow == 0)

abbrev is_slash : Option ℕ → Bool
is_slash none = false
is_slash (some c) = c == b'/'

abbrev is_empty : Str → Bool
is_empty [] = true
is_empty (c ∷ cs) = false

-- The bytes that are cut off are those of a path that does not start with the root; a byte behind the
-- end of the path is taken to be no slash.
abbrev pub without_root : Str → Str → Str
without_root chroot path =
    if not (is_empty chroot)
      && (not (is_prefix chroot path) && is_slash (get_elem? path (length chroot)))
    then drop (length chroot) path
    else path

abbrev pub proc_self_fd : Str
proc_self_fd =
    b'/' ∷ b'p' ∷ b'r' ∷ b'o' ∷ b'c' ∷ b'/' ∷ b's' ∷ b'e' ∷ b'l' ∷ b'f' ∷ b'/' ∷ b'f' ∷ b'd' ∷ b'/'
    ∷ []

-- pseudo_client_op(op, 0, fd, -1, path, &buf)
abbrev on_fd_path : Op → ℤ → Str → Stat → Request
on_fd_path op fd path buf = record (on_fd op fd buf) { path = some path }

-- The new name gets the entry of the old one, where it has one.
abbrev pub record_link : Str → Str → Stat → Option Msg → ℤ → Wrapper
record_link oldpath newpath buf msg rc = do
  client_op (on_path link minus_one newpath (some (merged buf msg)))
  linked_paths oldpath newpath (return rc)

-- A temporary file without an entry is created under the new name.
abbrev pub tmpfile_known : ℤ → Str → Str → ℤ → Option Stat → Wrapper
tmpfile_known fd oldpath newpath rc none = return minus_one
tmpfile_known fd oldpath newpath rc (some buf) = do
  msg ← client_op (on_fd fstat fd buf)
  if succeeded msg then record_link oldpath newpath buf msg rc else (do
    client_op (on_fd_path creat fd newpath buf)
    client_op (on_fd_path open_file fd newpath buf)
    return rc)

abbrev pub link_known : Str → Str → ℤ → Option Stat → Wrapper
link_known oldpath newpath rc none = return minus_one
link_known oldpath newpath rc (some buf) = do
  msg ← client_op (on_path stat minus_one oldpath (some buf))
  record_link oldpath newpath buf msg rc

abbrev pub stat_linked : ℤ → Str → Str → ℤ → Wrapper
stat_linked fd oldpath newpath rc =
    if failed fd
    then base_lstat oldpath (link_known oldpath newpath rc)
    else base_fstat fd (tmpfile_known fd oldpath newpath rc)

abbrev pub link_tmpfile : ℤ → Str → Str → Wrapper
link_tmpfile fd oldpath newpath = do
  rc ← real_call (real_linkat at_fdcwd oldpath at_fdcwd newpath at_symlink_follow)
  if failed rc then return rc else stat_linked fd oldpath newpath rc

abbrev pub link_path : Str → Str → Wrapper
link_path oldpath newpath = do
  rc ← real_call (real_link oldpath newpath)
  if failed rc then return rc else base_lstat oldpath (link_known oldpath newpath rc)

unfoldable pub linkat : (ℤ → Str → ℕ → Str) → (Str → ℤ) → Str → ℤ → Str → ℤ → Str → ℕ → Wrapper
linkat root_path atoi chroot olddirfd oldname newdirfd newname flags =
    let newpath = root_path newdirfd newname at_symlink_nofollow in
    let written = without_root chroot oldname in
    if is_prefix proc_self_fd written && follows flags
    then link_tmpfile (atoi (drop 14 written)) written newpath
    else link_path (root_path olddirfd oldname (if follows flags then 0 else at_symlink_nofollow))
        newpath
