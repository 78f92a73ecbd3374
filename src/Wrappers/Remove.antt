-- ===== src/Wrappers/Remove.antt =====
-- wrap_unlinkat, wrap_unlink, wrap_rmdir and wrap_remove of ports/unix/guts. The file may vanish at any
-- moment after the real call, so the server is told before it (MAY_UNLINK) and after it.
use pseudo.Prelude.{ℕ, Option, none, some, Str, ℤ, if◌then◌else◌}
use pseudo.Message.{Msg, may_unlink, did_unlink, cancel_unlink, is_dir}
use pseudo.Client.Request.{Stat}
use pseudo.Wrappers.Calls.{
  Wrapper, return, base_fstatat, base_lstat, real_call, client_op, real_unlinkat, real_rmdir, ◌>>=◌,
  ◌>>◌, minus_one, at_fdcwd, at_symlink_nofollow, failed, succeeded, on_path, op_if,
}

-- What follows the real call, in wrap_unlinkat as in wrap_rmdir.
abbrev pub tell_server : Str → Stat → ℤ → Option Msg → Wrapper
tell_server path buf rc msg = do
  op_if (succeeded msg)
      (on_path (if failed rc then cancel_unlink else did_unlink) minus_one path (some buf))
  return rc

abbrev unlinkat_known : ℤ → Str → ℕ → Option Stat → Wrapper
unlinkat_known dirfd path rflags none = return minus_one
unlinkat_known dirfd path rflags (some buf) = do
  msg ← client_op (on_path may_unlink dirfd path (some buf))
  rc ← real_call (real_unlinkat dirfd path rflags)
  tell_server path buf rc msg

unfoldable pub unlinkat : ℤ → Str → ℕ → Wrapper
unlinkat dirfd path rflags =
    base_fstatat dirfd path at_symlink_nofollow (unlinkat_known dirfd path rflags)

abbrev rmdir_known : Str → Option Stat → Wrapper
rmdir_known path none = return minus_one
rmdir_known path (some buf) = do
  msg ← client_op (on_path may_unlink minus_one path (some buf))
  rc ← real_call (real_rmdir path)
  tell_server path buf rc msg

unfoldable pub rmdir : Str → Wrapper
rmdir path = base_lstat path (rmdir_known path)

unfoldable pub unlink : Str → Wrapper
unlink path = unlinkat at_fdcwd path 0

abbrev remove_known : Str → Option Stat → Wrapper
remove_known path none = return minus_one
remove_known path (some buf) = if is_dir buf.mode then rmdir path else unlink path

unfoldable pub remove : Str → Wrapper
remove path = base_lstat path (remove_known path)
