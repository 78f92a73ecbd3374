-- ===== src/Wrappers/Change.antt =====
-- wrap_fchmodat, wrap_fchownat, wrap_fchmod and wrap_fchown of ports/unix/guts. A user or a group -1,
-- which is 2 ^ 32 - 1 as an unsigned number, is one that stays.
use pseudo.Prelude.{ℕ, ◌-◌, ◌^◌, ◌||◌, ◌==◌, Option, none, some, Str, ℤ, pos, if◌then◌else◌}
use pseudo.Message.{Msg, chmod, chown, fchmod, fchown, stat, merge_mode, is_dir, is_lnk}
use pseudo.Wrappers.Modes.{fs_mode}
use pseudo.Client.Request.{Stat, Request, stat_msg}
use pseudo.Wrappers.Calls.{
  Wrapper, return, base_fstatat, base_fstat, real_call, client_op, real_fchmodat, real_fchmod,
  ◌>>=◌, ◌>>◌, minus_one, succeeded, on_path, on_fd,
}

abbrev pub same_id : ℕ
same_id = 2 ^ 32 - 1

-- "chmod on a symbolic link always succeeds and has no effect"
abbrev pub fchmodat_known : ℤ → Str → ℕ → ℕ → Option Stat → Wrapper
fchmodat_known dirfd path mode flags none = return minus_one
fchmodat_known dirfd path mode flags (some st) = if is_lnk st.mode then return (pos 0) else (do
  real_call (real_fchmodat dirfd path (fs_mode mode (is_dir st.mode)) flags)
  client_op (on_path chmod dirfd path (some (record st { mode = merge_mode mode st.mode })))
  return (pos 0))

unfoldable pub fchmodat : ℤ → Str → ℕ → ℕ → Wrapper
fchmodat dirfd path mode flags =
    base_fstatat dirfd path flags (fchmodat_known dirfd path mode flags)

abbrev fchmod_known : ℤ → ℕ → Option Stat → Wrapper
fchmod_known fd mode none = return minus_one
fchmod_known fd mode (some st) = do
  client_op (on_fd fchmod fd (record st { mode = merge_mode mode st.mode }))
  real_call (real_fchmod fd (fs_mode mode (is_dir (merge_mode mode st.mode))))
  return (pos 0)

unfoldable pub fchmod_fd : ℤ → ℕ → Wrapper
fchmod_fd fd mode = base_fstat fd (fchmod_known fd mode)

-- The values of the server's entry, where there is one.
abbrev pub merged : Stat → Option Msg → Stat
merged buf none = buf
merged buf (some m) = if succeeded (some m) then stat_msg buf m else buf

-- The values for the server: what it has or else the file's, with the arguments over them.
abbrev owned : ℕ → ℕ → Stat → Stat
owned owner group buf = record buf {
  uid = (if owner == same_id then buf.uid else owner);
  gid = (if group == same_id then buf.gid else group);
}

-- `query` asks for the entry, and `change` sends the new values; the server is asked only if one of the
-- values stays.
abbrev change_owner : ℕ → ℕ → (Stat → Request) → (Stat → Request) → Stat → Wrapper
change_owner owner group query change st =
    if (owner == same_id) || (group == same_id)
    then (do
      msg ← client_op (query st)
      client_op (change (owned owner group (merged st msg)))
      return (pos 0))
    else (do client_op (change (owned owner group st)); return (pos 0))

abbrev fchownat_known : ℤ → Str → ℕ → ℕ → Option Stat → Wrapper
fchownat_known dirfd path owner group none = return minus_one
fchownat_known dirfd path owner group (some st) =
    change_owner owner group (λ buf. on_path stat minus_one path (some buf))
      (λ buf. on_path chown dirfd path (some buf)) st

unfoldable pub fchownat : ℤ → Str → ℕ → ℕ → ℕ → Wrapper
fchownat dirfd path owner group flags =
    base_fstatat dirfd path flags (fchownat_known dirfd path owner group)

abbrev fchown_known : ℤ → ℕ → ℕ → Option Stat → Wrapper
fchown_known fd owner group none = return minus_one
fchown_known fd owner group (some st) =
    change_owner owner group (on_fd stat fd) (on_fd fchown fd) st

unfoldable pub fchown_fd : ℤ → ℕ → ℕ → Wrapper
fchown_fd fd owner group = base_fstat fd (fchown_known fd owner group)
