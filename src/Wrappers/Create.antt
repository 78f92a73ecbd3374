-- ===== src/Wrappers/Create.antt =====
-- wrap_mkdirat, wrap_mknodat, wrap_mkfifoat and wrap_symlinkat of ports/unix/guts. `umask` is
-- pseudo_umask, and `buf` what the buffer holds before a call to stat fills it.
use pseudo.Prelude.{
  ℕ, Bool, true, false, ◌&&◌, ◌==◌, not, Option, none, some, Str, ◌++◌, ◌∷◌, [], ℤ, pos,
  if◌then◌else◌,
}
use Prim.Native.Nat.{bit_and, bit_or}
use pseudo.Message.{Msg, mkdir, mknod, symlink, file_type, merge_mode}
use pseudo.Wrappers.Modes.{flip, fs_mode, db_mode}
use pseudo.Client.Request.{Stat}
use pseudo.Wrappers.Calls.{
  Wrapper, return, base_fstatat, base_fstat, real_call, client_op, real_mkdirat, real_openat,
  real_mkfifoat, real_symlinkat, real_fchmodat, real_fchmod, real_close, real_unlinkat, ◌>>=◌, ◌>>◌,
  minus_one, at_symlink_nofollow, failed, refused, filled, on_path,
}

-- mode & ~pseudo_umask
abbrev pub masked : ℕ → ℕ → ℕ
masked umask mode = bit_and mode (flip umask)

-- What follows a directory's creation: a failed stat leaves it unknown to the server.
abbrev pub mkdirat_known : ℤ → Str → ℕ → ℤ → Option Stat → Wrapper
mkdirat_known dirfd path mode rc none = return rc
mkdirat_known dirfd path mode rc (some st) = do
  client_op (on_path mkdir dirfd path (some (record st { mode = db_mode st.mode mode })))
  real_call (real_fchmodat dirfd path (fs_mode mode true) 0)
  return rc

unfoldable pub mkdirat : ℕ → ℤ → Str → ℕ → Wrapper
mkdirat umask dirfd path mode0 =
    let mode = masked umask mode0 in
    do
      rc ← real_call (real_mkdirat dirfd path (fs_mode mode true))
      if failed rc
          then return rc
          else base_fstatat dirfd path at_symlink_nofollow (mkdirat_known dirfd path mode rc)

-- The end of mknodat and of mkfifoat, with the clean-up of a file that the server refused.
abbrev pub made : ℤ → Str → Option Msg → Wrapper
made dirfd path msg =
    if refused msg
    then (do real_call (real_unlinkat dirfd path at_symlink_nofollow); return minus_one)
    else return (pos 0)

-- if you don't specify a type, assume regular file
abbrev pub node_mode : ℕ → ℕ
node_mode mode = if file_type mode == 0 then bit_or mode 0o100000 else mode

abbrev pub mknodat_new : Stat → ℤ → Str → ℕ → ℕ → Option Stat → Wrapper
mknodat_new buf dirfd path mode dev (some st) = return minus_one
mknodat_new buf dirfd path mode dev none = do
  fd ← real_call (real_openat dirfd path (fs_mode mode false))
  if failed fd then return minus_one else (do
    real_call (real_fchmod fd (fs_mode mode false))
    st ← base_fstat fd
    real_call (real_close fd)
    let st' = filled buf st
    msg ← client_op (
        on_path mknod dirfd path
          (some (record st' { mode = merge_mode (db_mode st'.mode mode) mode; rdev = dev })))
    made dirfd path msg)

unfoldable pub mknodat : Stat → ℕ → ℤ → Str → ℕ → ℕ → Wrapper
mknodat buf umask dirfd path mode dev =
    base_fstatat dirfd path at_symlink_nofollow
      (mknodat_new buf dirfd path (node_mode (masked umask mode)) dev)

-- A pipe that cannot be examined is removed again.
abbrev pub mkfifoat_known : ℤ → Str → ℕ → Option Stat → Wrapper
mkfifoat_known dirfd path mode none = do
  real_call (real_fchmodat dirfd path (fs_mode mode false) 0)
  real_call (real_unlinkat dirfd path at_symlink_nofollow)
  return minus_one
mkfifoat_known dirfd path mode (some st) = do
  real_call (real_fchmodat dirfd path (fs_mode mode false) 0)
  msg ← client_op (on_path mknod dirfd path (some (record st { mode = db_mode st.mode mode })))
  made dirfd path msg

abbrev pub mkfifoat_new : ℤ → Str → ℕ → Option Stat → Wrapper
mkfifoat_new dirfd path mode (some st) = return minus_one
mkfifoat_new dirfd path mode none = do
  rc ← real_call (real_mkfifoat dirfd path (fs_mode mode false))
  if failed rc
      then return minus_one
      else base_fstatat dirfd path at_symlink_nofollow (mkfifoat_known dirfd path mode)

unfoldable pub mkfifoat : ℕ → ℤ → Str → ℕ → Wrapper
mkfifoat umask dirfd path mode =
    base_fstatat dirfd path at_symlink_nofollow (mkfifoat_new dirfd path (masked umask mode))

-- The target of the link on disk: an absolute one is put below the root directory of a chroot, unless
-- pseudo_nosymlinkexp is set.
abbrev pub link_target : Str → Bool → Str → Str
link_target chroot nosymlinkexp [] = []
link_target chroot nosymlinkexp (c ∷ cs) =
    if (c == b'/') && not nosymlinkexp then chroot ++ (c ∷ cs) else c ∷ cs

abbrev pub symlinkat_known : ℤ → Str → Option Stat → Wrapper
symlinkat_known dirfd newpath none = return minus_one
symlinkat_known dirfd newpath (some st) = do
  client_op (on_path symlink dirfd newpath (some st))
  return (pos 0)

-- `chroot` is pseudo_chroot, the empty string where there is none.
unfoldable pub symlinkat : Str → Bool → Str → ℤ → Str → Wrapper
symlinkat chroot nosymlinkexp oldname dirfd newpath = do
  rc ← real_call (real_symlinkat (link_target chroot nosymlinkexp oldname) dirfd newpath)
  if failed rc
      then return rc
      else base_fstatat dirfd newpath at_symlink_nofollow (symlinkat_known dirfd newpath)
